-- ===== src/Transcript/Index/Metrics.antt =====
-- The metrics of entries that are appended, dropped, cut or replaced.
use nu_agent.Prelude.{
  ℕ, zero, suc, List, [], ◌∷◌, ◌++◌, ◌≡◌, refl, ap, arith, length, take, drop, set,
}
use nu_agent.Transcript.Entry.{TranscriptEntry}
use nu_agent.Transcript.Index.{entry_metrics, all_metrics}

module _ (measure : TranscriptEntry → ℕ → ℕ) where
  pub all_metrics-append_one :
      (w : ℕ) (es : List TranscriptEntry) (e : TranscriptEntry)
      → all_metrics measure w (es ++ e ∷ [])
        ≡ all_metrics measure w es ++ entry_metrics measure w e ∷ []
  all_metrics-append_one w [] e = refl
  all_metrics-append_one w (x ∷ es) e =
      ap (◌∷◌ (entry_metrics measure w x)) (all_metrics-append_one w es e)

  pub all_metrics-drop :
      (w n : ℕ) (es : List TranscriptEntry)
      → all_metrics measure w (drop n es) ≡ drop n (all_metrics measure w es)
  all_metrics-drop w zero es = refl
  all_metrics-drop w (suc n) [] = refl
  all_metrics-drop w (suc n) (e ∷ es) = all_metrics-drop w n es

  pub all_metrics-take :
      (w n : ℕ) (es : List TranscriptEntry)
      → all_metrics measure w (take n es) ≡ take n (all_metrics measure w es)
  all_metrics-take w zero es = refl
  all_metrics-take w (suc n) [] = refl
  all_metrics-take w (suc n) (e ∷ es) =
      ap (◌∷◌ (entry_metrics measure w e)) (all_metrics-take w n es)

  pub all_metrics-set :
      (w i : ℕ) (es : List TranscriptEntry) (e : TranscriptEntry)
      → all_metrics measure w (set es i e)
        ≡ set (all_metrics measure w es) i (entry_metrics measure w e)
  all_metrics-set w i [] e = refl
  all_metrics-set w zero (x ∷ es) e = refl
  all_metrics-set w (suc i) (x ∷ es) e =
      ap (◌∷◌ (entry_metrics measure w x)) (all_metrics-set w i es e)

  pub length-all_metrics :
      (w : ℕ) (es : List TranscriptEntry) → length (all_metrics measure w es) ≡ length es
  length-all_metrics w [] = refl
  length-all_metrics w (e ∷ es) = omega (arith, length-all_metrics w es)
