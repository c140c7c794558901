-- ===== src/VoiceFilters/Examples.antt =====
-- Texts that are cut into pieces, at concrete inputs.
use hermes_voice_console.Prelude.{
  ◌≡◌, refl, none, some, List, [], ◌∷◌, Text, codes, strip, arith, text_eq, is_space,
}
use hermes_voice_console.VoiceFilters.{
  collapse, prepare_tts_sentences, sentences, split_all, split_long, split_at, last_blank,
}
use hermes_voice_console.VoiceFilters.Chunks.{AreSpokenFor, prepare_tts_sentences-AreSpokenFor}

two_sentences :
    prepare_tts_sentences 100 6 (codes "Go on. Now rest")
    ≡ some (codes "Go on." ∷ codes "Now" ∷ codes "rest" ∷ [])
unfolding prepare_tts_sentences collapse sentences split_all split_long split_at last_blank text_eq
    strip is_space
two_sentences = refl

-- With a limit of 0 a round takes nothing away, and no fuel is enough.
no_limit : prepare_tts_sentences 100 0 (codes "a") ≡ none
unfolding prepare_tts_sentences collapse sentences split_all split_long split_at last_blank text_eq
    strip is_space
no_limit = refl

prepare_tts_sentences-AreSpokenFor_example :
    (pieces : List Text) × (prepare_tts_sentences 100 6 (codes "Go on. Now rest") ≡ some pieces)
    × AreSpokenFor 100 6 (codes "Go on. Now rest") pieces
prepare_tts_sentences-AreSpokenFor_example =
    prepare_tts_sentences-AreSpokenFor 100 6 (codes "Go on. Now rest") (omega arith)
