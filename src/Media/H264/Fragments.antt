-- ===== src/Media/H264/Fragments.antt =====
-- internal/media/h264.go: the fragments of a NAL unit put it together again.
use xphone_go.Prelude.{
  ℕ, zero, suc, ◌+◌, ◌-◌, ◌*◌, ◌/◌, ◌%◌, ◌≤◌, ◌<◌, ◌≡◌, ◌≢◌, refl, ap, Bool, true, false, ◌||◌,
  List, [], ◌∷◌, ◌++◌, arith, leb, ◌==◌, length, take, drop, append-nil, append_assoc,
  take-append-drop, length-drop, Bool-cases, inl, inr,
}
use xphone_go.Prelude.Bytes.{byte_at}
use xphone_go.Media.H264.Defs.{
  H264Depacketizer, is_key_type, push_payload, push_single_nal, push_fua, fragments, fragment_fua,
  nal_payloads, packetize_nals,
}

-- The payloads of one timestamp, one after the other.
unfoldable pub push_payloads : List (List ℕ) → H264Depacketizer → H264Depacketizer
push_payloads [] d = d
push_payloads (p ∷ ps) d = push_payloads ps (push_payload p d)

pub push_payloads-append :
    (ps qs : List (List ℕ)) (d : H264Depacketizer)
    → push_payloads (ps ++ qs) d ≡ push_payloads qs (push_payloads ps d)
unfolding push_payloads
push_payloads-append [] qs d = refl
push_payloads-append (p ∷ ps) qs d = push_payloads-append ps qs (push_payload p d)

-- A NAL unit that a payload can carry: its type is 1 to 23.
pub record IsNal (nal : List ℕ) : Type 0 where
  pub not_empty : length nal ≢ 0
  pub first_type : 1 ≤ byte_at nal 0 % 32
  pub last_type : byte_at nal 0 % 32 ≤ 23

-- The depacketizer with one NAL unit more.
abbrev pub with_nal : List ℕ → H264Depacketizer → H264Depacketizer
with_nal nal d = record d {
  nals = d.nals ++ (nal ∷ []);
  is_keyframe = is_key_type (byte_at nal 0 % 32) || d.is_keyframe;
  fua_buf = [];
  fua_active = false;
}

push_payload-single :
    (nal : List ℕ) (d : H264Depacketizer)
    → IsNal nal
    → d.fua_buf ≡ []
    → d.fua_active ≡ false
    → push_payload nal d ≡ with_nal nal d
unfolding push_payload push_single_nal
push_payload-single nal d v b a = ground (arith, v.first_type, v.last_type)

push_payload-fua :
    (q header : ℕ) (bytes : List ℕ) (d : H264Depacketizer)
    → push_payload ((q * 32 + 28) ∷ header ∷ bytes) d ≡ push_fua ((q * 32 + 28) ∷ header ∷ bytes) d
unfolding push_payload
push_payload-fua q header bytes d =
    let type : (q * 32 + 28) % 32 ≡ 28 = omega arith in rw (type) refl

push_fua-middle :
    (q ty : ℕ) (bytes : List ℕ) (d : H264Depacketizer)
    → ty < 32
    → d.fua_active ≡ true
    → push_fua ((q * 32 + 28) ∷ (ty + (0 + 0)) ∷ bytes) d
      ≡ record d { fua_buf = d.fua_buf ++ bytes }
unfolding push_fua
push_fua-middle q ty bytes d h a =
    let start : ((ty + 0) / 128 % 2 == 1) ≡ false = ground arith in
    let last : ((ty + 0) / 64 % 2 == 1) ≡ false = ground arith in rw (start, a, last) (ground arith)

push_fua-last :
    (q ty : ℕ) (bytes : List ℕ) (d : H264Depacketizer)
    → ty < 32
    → d.fua_active ≡ true
    → push_fua ((q * 32 + 28) ∷ (ty + (0 + 64)) ∷ bytes) d
      ≡ record d { nals = d.nals ++ ((d.fua_buf ++ bytes) ∷ []); fua_buf = []; fua_active = false }
unfolding push_fua
push_fua-last q ty bytes d h a =
    let start : ((ty + 64) / 128 % 2 == 1) ≡ false = ground arith in
    let last : ((ty + 64) / 64 % 2 == 1) ≡ true = ground arith in rw (start, a, last) (ground arith)

push_fua-first :
    (q ty : ℕ) (bytes : List ℕ) (d : H264Depacketizer)
    → ty < 32
    → push_fua ((q * 32 + 28) ∷ (ty + (128 + 0)) ∷ bytes) d ≡ record d {
      fua_buf = (q * 32 + ty) ∷ bytes;
      fua_active = true;
      is_keyframe = is_key_type ty || d.is_keyframe;
    }
unfolding push_fua
push_fua-first q ty bytes d h =
    let start : ((ty + 128) / 128 % 2 == 1) ≡ true = ground arith in
    let last : ((ty + 128) / 64 % 2 == 1) ≡ false = ground arith in
    let nri : (q * 32 + 28) / 32 * 32 ≡ q * 32 = omega arith in
    let type : (ty + 128) % 32 ≡ ty = omega arith in rw (start, last, nri, type) (ground arith)

take_all : (n : ℕ) (xs : List ℕ) → length xs ≤ n → take n xs ≡ xs
take_all zero [] h = refl
take_all zero (x ∷ xs) h = absurd (omega arith)
take_all (suc n) [] h = refl
take_all (suc n) (x ∷ xs) h = ap (λ (t : List ℕ). x ∷ t) (take_all n xs (omega arith))

fragments-empty :
    (fuel size ind ty : ℕ) (first : Bool) (bytes : List ℕ)
    → length bytes ≡ 0
    → fragments fuel size ind ty first bytes ≡ []
unfolding fragments
fragments-empty zero size ind ty first bytes h = refl
fragments-empty (suc fuel) size ind ty first bytes h = ground arith

module _ (q ty size : ℕ) (is_type : ty < 32) (pos : 1 ≤ size) where
  -- The fragments behind the first one complete the NAL unit.
  push_rest :
      (fuel : ℕ) (d : H264Depacketizer) (bytes : List ℕ)
      → length bytes ≤ fuel
      → length bytes ≢ 0
      → d.fua_active ≡ true
      → push_payloads (fragments fuel size (q * 32 + 28) ty false bytes) d ≡ record d {
        nals = d.nals ++ ((d.fua_buf ++ bytes) ∷ []);
        fua_buf = [];
        fua_active = false;
      }
  unfolding fragments push_payloads
  push_rest zero d bytes f n a = absurd (omega arith)
  push_rest (suc fuel) d bytes f n a =
      let nonempty : (length bytes == 0) ≡ false = ground arith in
      elim (Bool-cases (leb (length bytes) size)) [
        | inl fits ↦
            rw
              (
                nonempty,
                fits,
                fragments-empty fuel size (q * 32 + 28) ty false (drop size bytes)
                    (ground (arith, length-drop size bytes)),
                take_all size bytes (ground arith),
                push_payload-fua q (ty + (0 + 64)) bytes d,
                push_fua-last q ty bytes d is_type a,
              )
              refl
        | inr more ↦
            rw
              (
                nonempty,
                more,
                push_payload-fua q (ty + (0 + 0)) (take size bytes) d,
                push_fua-middle q ty (take size bytes) d is_type a,
                push_rest fuel (record d { fua_buf = d.fua_buf ++ take size bytes })
                    (drop size bytes) (omega (arith, length-drop size bytes))
                    (ground (arith, length-drop size bytes)) a,
                append_assoc d.fua_buf (take size bytes) (drop size bytes),
                take-append-drop size bytes,
              )
              refl
      ]

-- The first of several fragments starts the NAL unit.
push_fragments :
    (q ty size fuel : ℕ) (d : H264Depacketizer) (bytes : List ℕ)
    → ty < 32
    → 1 ≤ size
    → length bytes ≤ fuel
    → size < length bytes
    → push_payloads (fragments fuel size (q * 32 + 28) ty true bytes) d ≡ record d {
      nals = d.nals ++ (((q * 32 + ty) ∷ bytes) ∷ []);
      is_keyframe = is_key_type ty || d.is_keyframe;
      fua_buf = [];
      fua_active = false;
    }
unfolding fragments push_payloads
push_fragments q ty size zero d bytes h p f l = absurd (omega arith)
push_fragments q ty size (suc fuel) d bytes h p f l =
    let nonempty : (length bytes == 0) ≡ false = ground arith in
    let more : leb (length bytes) size ≡ false = ground arith in
    let d' : H264Depacketizer = record d {
      fua_buf = (q * 32 + ty) ∷ take size bytes;
      fua_active = true;
      is_keyframe = is_key_type ty || d.is_keyframe;
    } in
    rw
      (
        nonempty,
        more,
        push_payload-fua q (ty + (128 + 0)) (take size bytes) d,
        push_fua-first q ty (take size bytes) d h,
        push_rest q ty size h p fuel d' (drop size bytes) (omega (arith, length-drop size bytes))
            (ground (arith, length-drop size bytes)) refl,
        take-append-drop size bytes,
      )
      refl

-- The payloads of a NAL unit give it back.
push_payloads-nal :
    (mtu : ℕ) (nal : List ℕ) (d : H264Depacketizer)
    → 3 ≤ mtu
    → IsNal nal
    → d.fua_buf ≡ []
    → d.fua_active ≡ false
    → push_payloads (nal_payloads mtu nal) d ≡ with_nal nal d
unfolding push_payloads fragment_fua
push_payloads-nal mtu [] d m v b a = absurd (v.not_empty refl)
push_payloads-nal mtu (c ∷ bytes) d m v b a =
    let nonempty : (length (c ∷ bytes) == 0) ≡ false = ground arith in
    elim (Bool-cases (leb (length (c ∷ bytes)) mtu)) [
      | inl fits ↦ rw (nonempty, fits) (push_payload-single (c ∷ bytes) d v b a)
      | inr long ↦
          let whole : c / 32 * 32 + c % 32 ≡ c = omega arith in
          rw
            (
              nonempty,
              long,
              push_fragments (c / 32) (c % 32) (mtu - 2) (length bytes) d bytes (omega arith)
                  (omega arith) (omega arith) (ground arith),
              whole,
            )
            refl
    ]

abbrev pub AllNals : List (List ℕ) → Type 0
AllNals [] = Unit
AllNals (nal ∷ nals) = IsNal nal × AllNals nals

-- Whether one of the NAL units makes the frame a keyframe.
abbrev pub any_key : List (List ℕ) → Bool → Bool
any_key [] old = old
any_key (nal ∷ nals) old = any_key nals (is_key_type (byte_at nal 0 % 32) || old)

-- The payloads of a frame give its NAL units back in their order.
pub push_payloads-packetize_nals :
    (mtu : ℕ) (nals : List (List ℕ)) (d : H264Depacketizer)
    → 3 ≤ mtu
    → AllNals nals
    → d.fua_buf ≡ []
    → d.fua_active ≡ false
    → push_payloads (packetize_nals mtu nals) d ≡ record d {
      nals = d.nals ++ nals;
      is_keyframe = any_key nals d.is_keyframe;
      fua_buf = [];
      fua_active = false;
    }
unfolding packetize_nals push_payloads
push_payloads-packetize_nals mtu [] d m v b a = ground (arith, append-nil d.nals)
push_payloads-packetize_nals mtu (nal ∷ nals) d m (v, vs) b a =
    rw
      (
        push_payloads-append (nal_payloads mtu nal) (packetize_nals mtu nals) d,
        push_payloads-nal mtu nal d m v b a,
        push_payloads-packetize_nals mtu nals (with_nal nal d) m vs refl refl,
        append_assoc d.nals (nal ∷ []) nals,
      )
      refl
