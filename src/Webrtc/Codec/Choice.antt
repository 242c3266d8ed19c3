-- ===== src/Webrtc/Codec/Choice.antt =====
-- What selectVideoCodec chooses.
use media_stream.Base.{
  ℕ, ◌≡◌, ◌↔◌, ◌⊎◌, refl, String, true, false, List, [], ◌∷◌, ◌++◌, ◌||◌, str_eq, eq_iff, arith,
  Bool-cases, inl, inr, ap,
}
use media_stream.Webrtc.Codec.{
  to_upper, upper_byte, has_prefix, contains, supports_h264, supports_h265, fallback,
  select_video_codec, h265_bytes, h264_bytes, hevc_bytes, avc_bytes,
}

has_prefix-append : (part s : List ℕ) → has_prefix (part ++ s) part ≡ true
unfolding has_prefix
has_prefix-append [] s = ground arith
has_prefix-append (b ∷ bs) s = ground (arith, has_prefix-append bs s)

prefix_rest : (s part : List ℕ) → has_prefix s part ≡ true → (rest : List ℕ) × (s ≡ part ++ rest)
unfolding has_prefix
prefix_rest s [] h = (s, refl)
prefix_rest [] (b ∷ bs) h = absurd (ground arith)
prefix_rest (a ∷ s) (b ∷ bs) h =
    let (rest, e) = prefix_rest s bs (ground arith) in let same : a ≡ b = ground arith in (rest, cc)

contains-middle : (before part after : List ℕ) → contains (before ++ part ++ after) part ≡ true
unfolding contains has_prefix
contains-middle [] [] [] = refl
contains-middle [] [] (a ∷ after) = refl
contains-middle [] (b ∷ bs) after = ground (arith, has_prefix-append (b ∷ bs) after)
contains-middle (a ∷ before) part after = ground (arith, contains-middle before part after)

contains_split :
    (s part : List ℕ)
    → contains s part ≡ true
    → (before : List ℕ) × (after : List ℕ) × (s ≡ before ++ part ++ after)
unfolding contains
contains_split [] part h = let (rest, e) = prefix_rest [] part h in ([], rest, e)
contains_split (a ∷ s) part h = elim (Bool-cases (has_prefix (a ∷ s) part)) [
  | inl q ↦ let (rest, e) = prefix_rest (a ∷ s) part q in ([], rest, e)
  | inr q ↦
      let (before, after, e) = contains_split s part (ground arith) in
      (a ∷ before, after, ap (λ l. a ∷ l) e)
]

upper_byte-twice : (b : ℕ) → upper_byte (upper_byte b) ≡ upper_byte b
upper_byte-twice b = ground arith

to_upper-twice : (s : List ℕ) → to_upper (to_upper s) ≡ to_upper s
unfolding to_upper
to_upper-twice [] = refl
to_upper-twice (b ∷ s) = ground (arith, upper_byte-twice b, to_upper-twice s)

-- The part stands somewhere in the text.
abbrev pub Occurs : List ℕ → List ℕ → Type 0
Occurs part s = (before : List ℕ) × (after : List ℕ) × (s ≡ before ++ part ++ after)

contains_iff : (s part : List ℕ) → (contains s part ≡ true) ↔ Occurs part s
contains_iff s part = (
  contains_split s part,
  λ o. let (before, after, e) = o in rw e (contains-middle before part after),
)

either : (s a b : List ℕ) → ((contains s a || contains s b) ≡ true) ↔ (Occurs a s ⊎ Occurs b s)
either s a b = (
  λ h. elim (Bool-cases (contains s a)) [
    | inl q ↦ inl ((contains_iff s a).0 q)
    | inr q ↦ inr ((contains_iff s b).0 (ground arith))
  ],
  λ o. elim o [
    | inl x ↦ let q = (contains_iff s a).1 x in ground arith
    | inr x ↦ let q = (contains_iff s b).1 x in ground arith
  ],
)

-- A client counts as supporting H.265 exactly if H265 or HEVC stands somewhere in the offer, and
-- H.264 exactly if H264 or AVC does, each in any mixture of capital and small letters.
supports_iff :
    (offer : List ℕ)
    → ((supports_h265 offer ≡ true)
        ↔ (Occurs h265_bytes (to_upper offer) ⊎ Occurs hevc_bytes (to_upper offer)))
      × ((supports_h264 offer ≡ true)
          ↔ (Occurs h264_bytes (to_upper offer) ⊎ Occurs avc_bytes (to_upper offer)))
unfolding supports_h265 supports_h264
supports_iff offer =
    (either (to_upper offer) h265_bytes hevc_bytes, either (to_upper offer) h264_bytes avc_bytes)

codecs_differ : ◌≡◌ {A = String} "H264" "H265" → ⊥
codecs_differ e = let q = (eq_iff "H264" "H265").1 e in ground (arith, q)

not_both_empty : (c : String) → str_eq c "" ≡ true → str_eq c "H265" ≡ false
not_both_empty c h = rw ((eq_iff c "").0 h) refl

-- selectVideoCodec returns H264 or H265. It is H265 exactly if the client supports H.265 and either
-- the stream is H265 or the client does not support H.264. It is the stream's codec wherever that is
-- one of the two and the client supports it. The case of the offer's letters does not matter.
pub select_video_codec_lem :
    (offer : List ℕ) (stream_codec : String)
    → ((select_video_codec offer stream_codec ≡ "H264")
        ⊎ (select_video_codec offer stream_codec ≡ "H265"))
      × ((select_video_codec offer stream_codec ≡ "H265") ↔ (
          (supports_h265 offer ≡ true) × ((stream_codec ≡ "H265") ⊎ (supports_h264 offer ≡ false))))
      × (supports_h264 offer ≡ true → select_video_codec offer "H264" ≡ "H264")
      × (supports_h265 offer ≡ true → select_video_codec offer "H265" ≡ "H265")
      × (select_video_codec (to_upper offer) stream_codec ≡ select_video_codec offer stream_codec)
unfolding select_video_codec fallback
select_video_codec_lem offer stream_codec = (
  ground arith,
  ground (
    arith,
    codecs_differ,
    not_both_empty stream_codec,
    eq_iff stream_codec "H265",
    eq_iff stream_codec "H264",
    eq_iff stream_codec "",
  ),
  λ h. ground (arith, h),
  λ h. ground (arith, h),
  unfold supports_h264 supports_h265 in rw (to_upper-twice offer) refl,
)
