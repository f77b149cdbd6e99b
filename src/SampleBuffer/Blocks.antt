-- ===== src/SampleBuffer/Blocks.antt =====
-- The loops over a block and over the channels: where they stay inside, and what they leave.
use mathlib.Core.Option
use ecasound.Common.{
  ℕ, zero, suc, ◌+◌, ◌≤◌, ◌<◌, ◌≡◌, refl, ◌&&◌, List, [], ◌∷◌, Option, none, some, arith, ltb, leb,
  length, get_elem?, if◌then◌else◌,
}
use ecasound.SampleBuffer.{fill, combine, on_channels, on_matching}

module _ {A : Type 0} where
  -- The block that `fill` leaves where it stays inside.
  pub filled : A → ℕ → ℕ → List A → List A
  filled v start n [] = []
  filled v zero zero (x ∷ b) = x ∷ b
  filled v zero (suc n) (x ∷ b) = v ∷ filled v zero n b
  filled v (suc s) n (x ∷ b) = x ∷ filled v s n b

  filled-none : (v : A) (s : ℕ) (b : List A) → filled v s 0 b ≡ b
  unfolding filled
  filled-none v s [] = refl
  filled-none v zero (x ∷ b) = refl
  filled-none v (suc s) (x ∷ b) = rw (filled-none v s b)

  pub fill-filled :
      (v : A) (s n : ℕ) (b : List A)
      → (0 < n → s + n ≤ length b)
      → fill v s n b ≡ some (filled v s n b)
  unfolding fill filled
  fill-filled v s zero b h = rw (filled-none v s b)
  fill-filled v s (suc n) [] h = absurd (omega (arith, h (omega arith)))
  fill-filled v zero (suc n) (x ∷ b) h =
      rw (fill-filled v zero n b (λ l. omega (arith, h (omega arith))))
  fill-filled v (suc s) (suc n) (x ∷ b) h =
      rw (fill-filled v s (suc n) b (λ l. omega (arith, h (omega arith))))

  pub fill-outside : (v : A) (s n : ℕ) (b : List A) → 0 < n → length b < s + n → fill v s n b ≡ none
  unfolding fill
  fill-outside v s zero b p h = absurd (omega arith)
  fill-outside v s (suc n) [] p h = refl
  fill-outside v zero (suc zero) (x ∷ b) p h = absurd (omega arith)
  fill-outside v zero (suc (suc n)) (x ∷ b) p h =
      rw (fill-outside v zero (suc n) b (omega arith) (omega arith))
  fill-outside v (suc s) (suc n) (x ∷ b) p h =
      rw (fill-outside v s (suc n) b (omega arith) (omega arith))

  pub length-filled : (v : A) (s n : ℕ) (b : List A) → length (filled v s n b) ≡ length b
  unfolding filled
  length-filled v s n [] = refl
  length-filled v zero zero (x ∷ b) = refl
  length-filled v zero (suc n) (x ∷ b) = omega (arith, length-filled v zero n b)
  length-filled v (suc s) n (x ∷ b) = omega (arith, length-filled v s n b)

  pub get_elem?-filled :
      (v : A) (s n t : ℕ) (b : List A)
      → t < length b
      → get_elem? (filled v s n b) t ≡ (if leb s t && ltb t (s + n) then some v else get_elem? b t)
  unfolding filled
  get_elem?-filled v s n t [] h = absurd (omega arith)
  get_elem?-filled v zero zero t (x ∷ b) h = ground arith
  get_elem?-filled v zero (suc n) zero (x ∷ b) h = ground arith
  get_elem?-filled v zero (suc n) (suc t) (x ∷ b) h = ground (arith, get_elem?-filled v zero n t b)
  get_elem?-filled v (suc s) n zero (x ∷ b) h = ground arith
  get_elem?-filled v (suc s) n (suc t) (x ∷ b) h = ground (arith, get_elem?-filled v s n t b)

  -- The block that `combine` leaves where it stays inside.
  pub combined : (A → A → A) → ℕ → List A → List A → List A
  combined f zero xs ys = ys
  combined f (suc n) [] ys = ys
  combined f (suc n) (x ∷ xs) [] = []
  combined f (suc n) (x ∷ xs) (y ∷ ys) = f y x ∷ combined f n xs ys

  pub combine-combined :
      (f : A → A → A) (n : ℕ) (xs ys : List A)
      → n ≤ length xs
      → n ≤ length ys
      → combine f n xs ys ≡ some (combined f n xs ys)
  unfolding combine combined
  combine-combined f zero xs ys h k = refl
  combine-combined f (suc n) [] ys h k = absurd (omega arith)
  combine-combined f (suc n) (x ∷ xs) [] h k = absurd (omega arith)
  combine-combined f (suc n) (x ∷ xs) (y ∷ ys) h k =
      rw (combine-combined f n xs ys (omega arith) (omega arith))

  pub length-combined :
      (f : A → A → A) (n : ℕ) (xs ys : List A) → length (combined f n xs ys) ≡ length ys
  unfolding combined
  length-combined f zero xs ys = refl
  length-combined f (suc n) [] ys = refl
  length-combined f (suc n) (x ∷ xs) [] = refl
  length-combined f (suc n) (x ∷ xs) (y ∷ ys) = omega (arith, length-combined f n xs ys)

  -- The channels from `s` on, `n` of them, each through `g`.
  pub mapped : (List A → List A) → ℕ → ℕ → List (List A) → List (List A)
  mapped g s n [] = []
  mapped g zero zero (b ∷ bs) = b ∷ bs
  mapped g zero (suc n) (b ∷ bs) = g b ∷ mapped g zero n bs
  mapped g (suc s) n (b ∷ bs) = b ∷ mapped g s n bs

  -- Every block has the length `r`.
  abbrev pub AllLong : ℕ → List (List A) → Type 0
  AllLong r [] = Unit
  AllLong r (b ∷ bs) = (length b ≡ r) × AllLong r bs

  mapped-none : (g : List A → List A) (s : ℕ) (bs : List (List A)) → mapped g s 0 bs ≡ bs
  unfolding mapped
  mapped-none g s [] = refl
  mapped-none g zero (b ∷ bs) = refl
  mapped-none g (suc s) (b ∷ bs) = rw (mapped-none g s bs)

  pub on_channels-mapped :
      (f : List A → Option (List A)) (g : List A → List A) (r : ℕ)
      → ((b : List A) → length b ≡ r → f b ≡ some (g b))
      → (s n : ℕ) (bs : List (List A)) → AllLong r bs
      → s + n ≤ length bs
      → on_channels f s n bs ≡ some (mapped g s n bs)
  unfolding on_channels mapped
  on_channels-mapped f g r h s zero bs a l = rw (mapped-none g s bs)
  on_channels-mapped f g r h s (suc n) [] a l = absurd (omega arith)
  on_channels-mapped f g r h zero (suc n) (b ∷ bs) a l =
      rw (h b a.0, on_channels-mapped f g r h zero n bs a.1 (omega arith))
  on_channels-mapped f g r h (suc s) (suc n) (b ∷ bs) a l =
      rw (on_channels-mapped f g r h s (suc n) bs a.1 (omega arith))

  pub length-mapped :
      (g : List A → List A) (s n : ℕ) (bs : List (List A)) → length (mapped g s n bs) ≡ length bs
  unfolding mapped
  length-mapped g s n [] = refl
  length-mapped g zero zero (b ∷ bs) = refl
  length-mapped g zero (suc n) (b ∷ bs) = omega (arith, length-mapped g zero n bs)
  length-mapped g (suc s) n (b ∷ bs) = omega (arith, length-mapped g s n bs)

  pub mapped-AllLong :
      (g : List A → List A) (r s n : ℕ)
      → ((b : List A) → length b ≡ r → length (g b) ≡ r)
      → (bs : List (List A)) → AllLong r bs
      → AllLong r (mapped g s n bs)
  unfolding mapped
  mapped-AllLong g r s n h [] a = a
  mapped-AllLong g r zero zero h (b ∷ bs) a = a
  mapped-AllLong g r zero (suc n) h (b ∷ bs) a = (h b a.0, mapped-AllLong g r zero n h bs a.1)
  mapped-AllLong g r (suc s) n h (b ∷ bs) a = (a.0, mapped-AllLong g r s n h bs a.1)

  pub get_elem?-mapped :
      (g : List A → List A) (s n q : ℕ) (bs : List (List A))
      → get_elem? (mapped g s n bs) q
        ≡ (if leb s q && ltb q (s + n) then Option.map g (get_elem? bs q) else get_elem? bs q)
  unfolding mapped
  get_elem?-mapped g s n q [] = ground arith
  get_elem?-mapped g zero zero q (b ∷ bs) = ground arith
  get_elem?-mapped g zero (suc n) zero (b ∷ bs) = ground arith
  get_elem?-mapped g zero (suc n) (suc q) (b ∷ bs) = ground (arith, get_elem?-mapped g zero n q bs)
  get_elem?-mapped g (suc s) n zero (b ∷ bs) = ground arith
  get_elem?-mapped g (suc s) n (suc q) (b ∷ bs) = ground (arith, get_elem?-mapped g s n q bs)

-- A sample of two blocks, or a channel of two buffers, put together where both are there.
abbrev pub both : {A : Type 0} → (A → A → A) → Option A → Option A → Option A
both f none o = none
both f (some x) none = none
both f (some x) (some y) = some (f y x)

module _ {A : Type 0} where
  pub get_elem?-combined :
      (f : A → A → A) (n t : ℕ) (xs ys : List A)
      → n ≤ length xs
      → n ≤ length ys
      → get_elem? (combined f n xs ys) t
        ≡ (if ltb t n then both f (get_elem? xs t) (get_elem? ys t) else get_elem? ys t)
  unfolding combined
  get_elem?-combined f zero t xs ys h k = ground arith
  get_elem?-combined f (suc n) t [] ys h k = absurd (omega arith)
  get_elem?-combined f (suc n) t (x ∷ xs) [] h k = absurd (omega arith)
  get_elem?-combined f (suc n) zero (x ∷ xs) (y ∷ ys) h k = ground arith
  get_elem?-combined f (suc n) (suc t) (x ∷ xs) (y ∷ ys) h k =
      ground (arith, get_elem?-combined f n t xs ys)

  pub on_matching-combined :
      (f : List A → List A → Option (List A)) (g : List A → List A → List A) (r s : ℕ)
      → ((x y : List A) → length x ≡ r → length y ≡ s → f x y ≡ some (g y x))
      → (n : ℕ) (xs ys : List (List A)) → AllLong r xs
      → AllLong s ys
      → n ≤ length xs
      → n ≤ length ys
      → on_matching f n xs ys ≡ some (combined g n xs ys)
  unfolding on_matching combined
  on_matching-combined f g r s e zero xs ys a b h k = refl
  on_matching-combined f g r s e (suc n) [] ys a b h k = absurd (omega arith)
  on_matching-combined f g r s e (suc n) (x ∷ xs) [] a b h k = absurd (omega arith)
  on_matching-combined f g r s e (suc n) (x ∷ xs) (y ∷ ys) a b h k =
      rw (e x y a.0 b.0, on_matching-combined f g r s e n xs ys a.1 b.1 (omega arith) (omega arith))

  pub combined-AllLong :
      (g : List A → List A → List A) (r s n : ℕ)
      → ((y x : List A) → length y ≡ s → length (g y x) ≡ s)
      → (xs ys : List (List A)) → AllLong s ys
      → AllLong s (combined g n xs ys)
  unfolding combined
  combined-AllLong g r s zero h xs ys b = b
  combined-AllLong g r s (suc n) h [] ys b = b
  combined-AllLong g r s (suc n) h (x ∷ xs) [] b = b
  combined-AllLong g r s (suc n) h (x ∷ xs) (y ∷ ys) b =
      (h y x b.0, combined-AllLong g r s n h xs ys b.1)

  pub mapped_all-AllLong :
      (g : List A → List A) (r r' : ℕ)
      → ((b : List A) → length b ≡ r → length (g b) ≡ r')
      → (bs : List (List A)) → AllLong r bs
      → AllLong r' (mapped g 0 (length bs) bs)
  unfolding mapped
  mapped_all-AllLong g r r' h [] a = tt
  mapped_all-AllLong g r r' h (b ∷ bs) a = (h b a.0, mapped_all-AllLong g r r' h bs a.1)
