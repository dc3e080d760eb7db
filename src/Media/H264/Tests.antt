-- ===== src/Media/H264/Tests.antt =====
-- internal/media/h264.go at a frame of two NAL units, the second of which is sent in fragments.
use xphone_go.Prelude.{ℕ, ◌≡◌, refl, false, List, [], ◌∷◌, arith}
use xphone_go.Media.Vp8.Frames.{to_packets}
use xphone_go.Media.H264.Defs.{
  new_depacketizer, annex_b, start_code, skip_to_start, next_nal, split_nals, split_annex_b,
  packetize,
}
use xphone_go.Media.H264.Fragments.{IsNal, any_key}
use xphone_go.Media.H264.Frames.{push_all, push_all-packetize_nals}

abbrev parameters : List ℕ
parameters = 103 ∷ 66 ∷ []

abbrev slice : List ℕ
slice = 101 ∷ 1 ∷ 2 ∷ 3 ∷ 4 ∷ []

-- The second start code has three bytes.
abbrev access_unit : List ℕ
access_unit = 0 ∷ 0 ∷ 0 ∷ 1 ∷ 103 ∷ 66 ∷ 0 ∷ 0 ∷ 1 ∷ 101 ∷ 1 ∷ 2 ∷ 3 ∷ 4 ∷ []

access_unit_split : split_annex_b access_unit ≡ parameters ∷ slice ∷ []
unfolding split_annex_b split_nals next_nal skip_to_start start_code
access_unit_split = refl

parameters-IsNal : IsNal parameters
parameters-IsNal = record {
  not_empty = λ e. absurd (omega arith);
  first_type = omega arith;
  last_type = omega arith;
}

slice-IsNal : IsNal slice
slice-IsNal = record {
  not_empty = λ e. absurd (omega arith);
  first_type = omega arith;
  last_type = omega arith;
}

push_all-packetize_nals_example :
    push_all
      (record new_depacketizer { current_ts = 700 })
      (to_packets 96 1 900 65535 (packetize 3 access_unit))
    ≡ (
      record new_depacketizer { current_ts = 900 },
      record {
        timestamp = 900;
        is_keyframe = any_key (parameters ∷ slice ∷ []) false;
        data_bytes = annex_b (parameters ∷ slice ∷ []);
      }
          ∷ [],
    )
push_all-packetize_nals_example =
    push_all-packetize_nals 700 3 96 1 900 65535 access_unit parameters (slice ∷ [])
      access_unit_split (parameters-IsNal, (slice-IsNal, tt))
