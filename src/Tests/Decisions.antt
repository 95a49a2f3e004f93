-- ===== src/Tests/Decisions.antt =====
-- The test of runtime/decision_guard.py on two texts.
use nortropic_runtime.Prelude.{◌≡◌, refl, true, false, ◌⊎◌}
use nortropic_runtime.Prelude.Text.{words}
use nortropic_runtime.Decisions.Retained.{retained, retained_tokens, consume}
use nortropic_runtime.Decisions.Order.{IsSubsequence, retained-IsSubsequence}

samples :
    (retained "keep this" "keep  all\nof this" ≡ true) × (retained "keep this" "this keep" ≡ false)
unfolding retained retained_tokens consume words
samples = (refl, refl)

retained-IsSubsequence_example :
    ((retained "keep this" "keep all of this" ≡ true)
      × IsSubsequence (words "keep this") (words "keep all of this"))
    ⊎ ((retained "keep this" "keep all of this" ≡ false)
        × (¬ IsSubsequence (words "keep this") (words "keep all of this")))
retained-IsSubsequence_example = retained-IsSubsequence "keep this" "keep all of this"
