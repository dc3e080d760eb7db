-- ===== src/Text.antt =====
-- Go's strings, bytes and strconv packages on ASCII text: what the parsers and the printers of the
-- repository use of them. A text is the list of its bytes.
pub mod Defs
pub mod Numbers
pub mod Cuts
pub mod Lines
