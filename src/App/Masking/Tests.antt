-- ===== src/App/Masking/Tests.antt =====
-- The theorem on masked URLs, at rtsp://ab:cd@ef, and a URL without a password.
use media_stream.Base.{ℕ, ◌≡◌, refl, List, [], ◌∷◌, ◌++◌, arith}
use media_stream.Webrtc.Codec.{has_prefix}
use media_stream.App.Masking.{index_of, scheme_end, colon, stars, mask_rest, mask_rtsp_url}
use media_stream.App.Masking.Secrecy.{password_is_masked}

abbrev rtsp : List ℕ
rtsp = 114 ∷ 116 ∷ 115 ∷ 112 ∷ []

abbrev plain : List ℕ
plain = rtsp ++ scheme_end ++ (101 ∷ 102 ∷ [])

plain_is_shown : mask_rtsp_url plain ≡ plain
unfolding mask_rtsp_url mask_rest index_of has_prefix
plain_is_shown = refl

password_is_masked_example :
    (mask_rtsp_url
        ((rtsp ++ scheme_end) ++ (((97 ∷ 98 ∷ []) ++ 58 ∷ 99 ∷ 100 ∷ []) ++ (64 ∷ 101 ∷ 102 ∷ [])))
      ≡ (rtsp ++ scheme_end) ++ (97 ∷ 98 ∷ []) ++ colon ++ stars ++ (64 ∷ 101 ∷ 102 ∷ []))
    × ((shown : List ℕ)
        → mask_rtsp_url (
            (rtsp ++ scheme_end)
            ++ (((97 ∷ 98 ∷ []) ++ 58 ∷ 99 ∷ 100 ∷ []) ++ (64 ∷ (shown ++ (64 ∷ 101 ∷ 102 ∷ [])))))
          ≡ (rtsp ++ scheme_end)
            ++ (97 ∷ 98 ∷ [])
            ++ colon
            ++ stars
            ++ (64 ∷ (shown ++ (64 ∷ 101 ∷ 102 ∷ []))))
password_is_masked_example =
    password_is_masked rtsp (97 ∷ 98 ∷ []) (99 ∷ 100 ∷ []) (101 ∷ 102 ∷ []) refl refl refl
      (omega arith)
