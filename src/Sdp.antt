-- ===== src/Sdp.antt =====
-- internal/sdp/sdp.go: the parsed session and the choice of codecs. A direction is its constant; the
-- empty direction of a media line, the empty connection and missing ICE credentials are `none`.
-- `Body` reads the text of an SDP body and `Print` writes it.
pub mod Body
pub mod Lines
pub mod Sections
pub mod RoundTrip
pub mod MediaLines
pub mod Print
pub mod Tests
use xphone_go.Prelude.{
  ℕ, ◌≡◌, refl, Bool, true, false, ◌&&◌, Option, none, some, List, [], ◌∷◌, arith, if◌then◌else◌,
  contains, ◌⊎◌, inl, inr, Bool-cases,
}

pub data Dir : Type 0 where
  send_recv send_only recv_only inactive : Dir

pub data MediaKind : Type 0 where
  audio video other : MediaKind

pub record MediaDesc : Type 0 where
  pub kind : MediaKind
  pub port : ℕ
  pub codecs : List ℕ
  pub direction : Option Dir

pub record Session : Type 0 where
  pub connection : Option (List ℕ)
  pub media : List MediaDesc
  pub ice : Option (List ℕ × List ℕ)

abbrev pub or_send_recv : Option Dir → Dir
or_send_recv none = send_recv
or_send_recv (some d) = d

abbrev pub dir_of_media : List MediaDesc → Dir
dir_of_media [] = send_recv
dir_of_media (m ∷ ms) = or_send_recv m.direction

-- Dir: the direction of the first media line, sendrecv by default.
abbrev pub dir : Session → Dir
dir s = dir_of_media s.media

abbrev pub is_kind : MediaKind → MediaKind → Bool
is_kind audio audio = true
is_kind video video = true
is_kind other other = true
is_kind _ _ = false

abbrev pub first_of_kind : MediaKind → List MediaDesc → Option MediaDesc
first_of_kind k [] = none
first_of_kind k (m ∷ ms) = if is_kind k m.kind then some m else first_of_kind k ms

-- AudioMedia and VideoMedia.
abbrev pub audio_media : Session → Option MediaDesc
audio_media s = first_of_kind audio s.media

abbrev pub video_media : Session → Option MediaDesc
video_media s = first_of_kind video s.media

-- The codecs of a media line that may be missing.
abbrev pub codecs_of : Option MediaDesc → List ℕ
codecs_of none = []
codecs_of (some m) = m.codecs

unfoldable pub intersect_codecs : List ℕ → List ℕ → List ℕ
intersect_codecs [] remote = []
intersect_codecs (c ∷ prefs) remote =
    let rest = intersect_codecs prefs remote in if contains remote c then c ∷ rest else rest

abbrev pub first_codec : List ℕ → Option ℕ
first_codec [] = none
first_codec (c ∷ cs) = some c

-- NegotiateCodec; Go's -1 is `none`.
unfoldable pub negotiate_codec : List ℕ → List ℕ → Option ℕ
unfolding intersect_codecs
negotiate_codec prefs remote = first_codec (intersect_codecs prefs remote)

-- The audio codecs of an answer: the common ones, or all preferences where there are none.
unfoldable pub answer_codecs : List ℕ → List ℕ → List ℕ
unfolding intersect_codecs
answer_codecs prefs remote = elim (intersect_codecs prefs remote) [ [] ↦ prefs | c ∷ cs ↦ c ∷ cs ]

-- A codec is in the intersection exactly if both sides have it.
pub intersect_codecs_both :
    (prefs remote : List ℕ) (c : ℕ)
    → contains (intersect_codecs prefs remote) c ≡ (contains prefs c && contains remote c)
unfolding intersect_codecs
intersect_codecs_both [] remote c = refl
intersect_codecs_both (p ∷ prefs) remote c = ground (arith, intersect_codecs_both prefs remote c)

-- No preferred codec before `c` is offered by the remote side.
abbrev pub FirstCommon : List ℕ → List ℕ → ℕ → Type 0
FirstCommon [] remote c = ⊥
FirstCommon (p ∷ prefs) remote c =
    ((p ≡ c) × (contains remote p ≡ true))
    ⊎ ((contains remote p ≡ false) × FirstCommon prefs remote c)

-- The negotiated codec is the first of the local preferences that the remote side offers, and
-- there is none exactly if the two lists share nothing.
pub negotiate_codec_first :
    (prefs remote : List ℕ)
    → ((c : ℕ) → negotiate_codec prefs remote ≡ some c → FirstCommon prefs remote c)
      × (negotiate_codec prefs remote ≡ none
          → (c : ℕ) → (contains prefs c && contains remote c) ≡ false)
unfolding negotiate_codec
negotiate_codec_first [] remote = ((λ c h. cc), λ h c. refl)
negotiate_codec_first (p ∷ prefs) remote =
    let (found, missing) = negotiate_codec_first prefs remote in
    elim (Bool-cases (contains remote p)) [
      | inl common ↦ ((λ c h. inl (ground arith, common)), λ h c. cc (rw common at h))
      | inr apart ↦ (
        (λ c h. inr (apart, found c (rw apart at h))),
        λ h c. ground (arith, missing (rw apart at h) c),
      )
    ]
