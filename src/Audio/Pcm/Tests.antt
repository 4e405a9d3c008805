-- ===== src/Audio/Pcm/Tests.antt =====
-- PCM samples at concrete values (internal/audio/pcm.go).
use media_ai.Prelude.{◌≡◌, refl, [], ◌∷◌}
use media_ai.Prelude.Int.{pos, negsuc}
use media_ai.Audio.Pcm.{peak}

-- The smallest sample counts as 32767.
peak_loud : peak (pos 30000 ∷ negsuc 32767 ∷ pos 5 ∷ []) ≡ pos 32767
unfolding peak
peak_loud = refl
