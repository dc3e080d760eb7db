-- ===== src/Sdp/Sections.antt =====
-- internal/sdp/sdp.go: what Parse reads from the sections of a body that buildSDPMulti writes.
use xphone_go.Prelude.{
  ℕ, ◌≡◌, refl, sym, ap, ◌∙◌, Bool, true, false, List, [], ◌∷◌, ◌++◌, arith, Bool-cases, inl, inr,
  append_assoc, contains,
}
use xphone_go.Text.Defs.{Text, ascii, is_empty, split_byte, trim_last, strip_prefix, itoa, ℤ, crlf}
use xphone_go.Text.Cuts.{split_byte-append}
use xphone_go.Text.Numbers.{contains-append}
use xphone_go.Sdp.Body.{
  MediaDesc, Session, parse_attribute, parse_line, parse_lines, parse_fmtp, parse_rtcp_fb,
}
use xphone_go.Sdp.Print.{
  put_lines, codec_name, codec_fmtp, codec_rtcp_fb, codec_lines, all_codec_lines, rtcp_fb_lines,
  fmtp_lines,
}

-- Lines without CR and LF.
abbrev pub AreClean : List Text → Type 0
AreClean [] = Unit
AreClean (l ∷ ls) = (contains l 10 ≡ false) × (contains l 13 ≡ false) × AreClean ls

-- The loop of Parse on lines whose ends are taken off.
unfoldable pub read : List Text → Session × Bool → Session × Bool
read [] acc = acc
read (l ∷ ls) acc = read ls (parse_line l acc)

trim_last-end : (l : Text) → contains l 13 ≡ false → trim_last 13 (l ++ (13 ∷ [])) ≡ l
unfolding trim_last
trim_last-end [] h = refl
trim_last-end (c ∷ l) h = ground (arith, trim_last-end l)

split_byte-line :
    (l rest : Text)
    → contains l 10 ≡ false
    → split_byte 10 (l ++ (crlf ++ rest)) ≡ (l ++ (13 ∷ [])) ∷ split_byte 10 rest
split_byte-line l rest h =
    ap (λ (t : Text). split_byte 10 t) (sym (append_assoc l (13 ∷ []) (10 ∷ rest)))
    ∙ split_byte-append 10 (l ++ (13 ∷ [])) rest (ground (arith, contains-append l (13 ∷ []) 10))

pub parse_lines-put_lines :
    (ls : List Text) (acc : Session × Bool)
    → AreClean ls
    → parse_lines (split_byte 10 (put_lines ls)) acc ≡ read ls acc
unfolding parse_lines put_lines read split_byte trim_last
parse_lines-put_lines [] acc h = refl
parse_lines-put_lines (l ∷ ls) acc (n, r, h) =
    ap (λ (ts : List Text). parse_lines ts acc) (split_byte-line l (put_lines ls) n)
    ∙ ap (λ (t : Text). parse_lines (split_byte 10 (put_lines ls)) (parse_line t acc))
        (trim_last-end l r)
    ∙ parse_lines-put_lines ls (parse_line l acc) h

pub read-append :
    (ls ks : List Text) (acc : Session × Bool) → read (ls ++ ks) acc ≡ read ks (read ls acc)
unfolding read
read-append [] ks acc = refl
read-append (l ∷ ls) ks acc = read-append ls ks (parse_line l acc)

-- Lines that change nothing but the formats of the current media line.
abbrev pub AreFormats : List Text → Type 0
AreFormats ls =
    (s : Session) (md : MediaDesc) (mds : List MediaDesc)
    → (f : List (ℤ × Text)) × (r : List (ℤ × Text)) × (read ls (record s { media = md ∷ mds }, true)
        ≡ (record s { media = record md { fmtp = f; rtcp_fb = r } ∷ mds }, true))

none-AreFormats : AreFormats []
unfolding read
none-AreFormats s md mds = (md.fmtp, md.rtcp_fb, refl)

append-AreFormats : (ls ks : List Text) → AreFormats ls → AreFormats ks → AreFormats (ls ++ ks)
append-AreFormats ls ks h k s md mds =
    let (f, r, e) = h s md mds in
    let (f', r', e') = k s (record md { fmtp = f; rtcp_fb = r }) mds in
    (f', r', read-append ls ks (record s { media = md ∷ mds }, true) ∙ ap (read ks) e ∙ e')

rtpmap-AreFormats : (v : Text) → AreFormats ((ascii "a=rtpmap:" ++ v) ∷ [])
unfolding read parse_attribute strip_prefix
rtpmap-AreFormats v s md mds = (md.fmtp, md.rtcp_fb, refl)

fmtp-AreFormats : (v : Text) → AreFormats ((ascii "a=fmtp:" ++ v) ∷ [])
unfolding read parse_attribute strip_prefix parse_fmtp
fmtp-AreFormats v s md mds = ((parse_fmtp v md).fmtp, md.rtcp_fb, refl)

rtcp_fb-AreFormats : (v : Text) → AreFormats ((ascii "a=rtcp-fb:" ++ v) ∷ [])
unfolding read parse_attribute strip_prefix parse_rtcp_fb
rtcp_fb-AreFormats v s md mds = (md.fmtp, (parse_rtcp_fb v md).rtcp_fb, refl)

fmtp_lines-AreFormats : (c : ℕ) (v : Text) → AreFormats (fmtp_lines c v)
fmtp_lines-AreFormats c v = elim (Bool-cases (is_empty v)) [
  | inl e ↦ rw (e) none-AreFormats
  | inr e ↦ rw (e) (fmtp-AreFormats (itoa c ++ (32 ∷ v)))
]

rtcp_fb_lines-AreFormats : (c : ℕ) (vs : List Text) → AreFormats (rtcp_fb_lines c vs)
rtcp_fb_lines-AreFormats c [] = none-AreFormats
rtcp_fb_lines-AreFormats c (v ∷ vs) =
    append-AreFormats ((ascii "a=rtcp-fb:" ++ (itoa c ++ (32 ∷ v))) ∷ []) (rtcp_fb_lines c vs)
      (rtcp_fb-AreFormats (itoa c ++ (32 ∷ v))) (rtcp_fb_lines-AreFormats c vs)

codec_lines-AreFormats : (c : ℕ) → AreFormats (codec_lines c)
unfolding codec_lines
codec_lines-AreFormats c = elim (Bool-cases (is_empty (codec_name c))) [
  | inl e ↦ rw (e) none-AreFormats
  | inr e ↦
      let rest = fmtp_lines c (codec_fmtp c) ++ rtcp_fb_lines c (codec_rtcp_fb c) in
      rw (e) (
        append-AreFormats ((ascii "a=rtpmap:" ++ (itoa c ++ (32 ∷ codec_name c))) ∷ []) rest
          (rtpmap-AreFormats (itoa c ++ (32 ∷ codec_name c)))
          (append-AreFormats (fmtp_lines c (codec_fmtp c)) (rtcp_fb_lines c (codec_rtcp_fb c))
            (fmtp_lines-AreFormats c (codec_fmtp c))
            (rtcp_fb_lines-AreFormats c (codec_rtcp_fb c))))
]

pub all_codec_lines-AreFormats : (cs : List ℕ) → AreFormats (all_codec_lines cs)
unfolding all_codec_lines
all_codec_lines-AreFormats [] = none-AreFormats
all_codec_lines-AreFormats (c ∷ cs) =
    append-AreFormats (codec_lines c) (all_codec_lines cs) (codec_lines-AreFormats c)
      (all_codec_lines-AreFormats cs)
