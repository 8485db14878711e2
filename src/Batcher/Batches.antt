-- ===== src/Batcher/Batches.antt =====
-- The batches that the worker takes from its queue.
use logrin.Base.{
  ℕ, ◌≤◌, ◌<◌, ◌≡◌, ◌∙◌, refl, ◌⊎◌, inl, inr, ◌||◌, List, [], ◌∷◌, ◌++◌, append_assoc, ◌==◌, ltb,
  length, length-append, Bool-cases, arith,
}
use logrin.Batcher.{fill_batch}

module _ {A : Type 0} where
  -- The batch and what stays are the old batch and the queue, in their order.
  fill_batch-append :
      (limit : ℕ) (batch queue : List A)
      → (fill_batch limit batch queue).0 ++ (fill_batch limit batch queue).1 ≡ batch ++ queue
  unfolding fill_batch
  fill_batch-append limit batch [] = refl
  fill_batch-append limit batch (x ∷ queue) =
      elim (Bool-cases (limit == 0 || ltb (length batch) limit)) [
        | inl room ↦
            rw room
              (fill_batch-append limit (batch ++ x ∷ []) queue ∙ append_assoc batch (x ∷ []) queue)
        | inr full ↦ rw full
      ]

  fill_batch-ge :
      (limit : ℕ) (batch queue : List A) → length batch ≤ length (fill_batch limit batch queue).0
  unfolding fill_batch
  fill_batch-ge limit batch [] = omega arith
  fill_batch-ge limit batch (x ∷ queue) =
      ground (arith, fill_batch-ge limit (batch ++ x ∷ []) queue, length-append batch (x ∷ []))

  fill_batch-le :
      (limit : ℕ) (batch queue : List A)
      → (limit ≡ 0) ⊎ (length batch ≤ limit)
      → (limit ≡ 0) ⊎ (length (fill_batch limit batch queue).0 ≤ limit)
  unfolding fill_batch
  fill_batch-le limit batch [] h = h
  fill_batch-le limit batch (x ∷ queue) h =
      ground (arith, fill_batch-le limit (batch ++ x ∷ []) queue, length-append batch (x ∷ []))

  -- Without a limit the queue is drained.
  fill_batch-drain : (batch queue : List A) → (fill_batch 0 batch queue).1 ≡ []
  unfolding fill_batch
  fill_batch-drain batch [] = refl
  fill_batch-drain batch (x ∷ queue) = fill_batch-drain (batch ++ x ∷ []) queue

  first : (limit : ℕ) (x : A) (queue : List A) → 0 < length (fill_batch limit [] (x ∷ queue)).0
  unfolding fill_batch
  first limit x queue = ground (arith, fill_batch-ge limit (x ∷ []) queue)

  -- A batch that the consumer may be called with: not empty, and within the limit, if any.
  abbrev pub IsBatch : ℕ → List A → Type 0
  IsBatch limit batch = (0 < length batch) × ((limit ≡ 0) ⊎ (length batch ≤ limit))

  -- From a queue that is not empty the worker takes a batch off the front: the batch is not
  -- empty, respects the limit, and with what stays makes up the queue in its order.
  pub fill_batch-IsBatch :
      (limit : ℕ) (x : A) (queue : List A)
      → IsBatch limit (fill_batch limit [] (x ∷ queue)).0
        × ((fill_batch limit [] (x ∷ queue)).0 ++ (fill_batch limit [] (x ∷ queue)).1 ≡ x ∷ queue)
  fill_batch-IsBatch limit x queue = (
    (first limit x queue, fill_batch-le limit [] (x ∷ queue) (inr (omega arith))),
    fill_batch-append limit [] (x ∷ queue),
  )
