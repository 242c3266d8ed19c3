-- ===== src/Rtsp/Names.antt =====
-- The names of RTSP paths in GetOrCreatePath and GetPath of go-legacy/internal/rtsp/path_manager.go.
use Prim.Native.String.{String, [], ◌∷◌}
use Prim.Native.Char.{code}
use media_stream.Base.{if◌then◌else◌, ◌==◌, ◌≡◌, refl}

-- The stream's id: the path's name without a slash at its start.
unfoldable pub strip_slash : String → String
strip_slash [] = ""
strip_slash (c ∷ s) = if code c == b'/' then s else c ∷ s

with_slash : strip_slash "/cam" ≡ "cam"
unfolding strip_slash
with_slash = refl

without_slash : strip_slash "cam" ≡ "cam"
unfolding strip_slash
without_slash = refl
