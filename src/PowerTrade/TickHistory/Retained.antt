-- ===== src/PowerTrade/TickHistory/Retained.antt =====
-- What the history keeps: its ticks stand in the order of their numbers, all of them already given
-- out, and removing a watermark drops exactly the ticks below the lowest one left.
use arby.Common.{
  ℕ, suc, ◌+◌, ◌≤◌, ◌<◌, ◌≡◌, refl, if◌then◌else◌, List, [], ◌∷◌, ◌++◌, map, none, some, All, ltb,
  All-map, ◌==◌, arith,
}
use arby.PowerTrade.TickHistory.Sequences.{emplace, erase_below, find, after, insert, erase}
use arby.PowerTrade.TickHistory.{TickHistory, u64_mod, add_tick, add_watermark, remove_watermark}

abbrev pub IsLow : ℕ → List ℕ → Type 0
IsLow v = All λ w. v ≤ w

abbrev pub IsSorted : List ℕ → Type 0
IsSorted [] = Unit
IsSorted (v ∷ ws) = IsLow v ws × IsSorted ws

insert-IsLow : (v w : ℕ) (ws : List ℕ) → v ≤ w → IsLow v ws → IsLow v (insert w ws)
unfolding insert
insert-IsLow v w [] h l = (h, tt)
insert-IsLow v w (x ∷ ws) h l = ground (arith, insert-IsLow v w ws h l.1)

IsLow-trans : (v w : ℕ) (ws : List ℕ) → v ≤ w → IsLow w ws → IsLow v ws
IsLow-trans v w ws h l = All-map (λ x. w ≤ x) (λ x. v ≤ x) ws (λ x e. omega arith) l

pub insert-IsSorted : (w : ℕ) (ws : List ℕ) → IsSorted ws → IsSorted (insert w ws)
unfolding insert
insert-IsSorted w [] s = (tt, tt)
insert-IsSorted w (v ∷ ws) s =
    ground (arith, insert-IsSorted w ws s.1, insert-IsLow v w ws, IsLow-trans w v ws)

erase-IsLow : (v w : ℕ) (ws : List ℕ) → IsLow v ws → IsLow v (erase w ws)
unfolding erase
erase-IsLow v w [] l = tt
erase-IsLow v w (x ∷ ws) l = ground (arith, erase-IsLow v w ws l.1)

pub erase-IsSorted : (w : ℕ) (ws : List ℕ) → IsSorted ws → IsSorted (erase w ws)
unfolding erase
erase-IsSorted w [] s = tt
erase-IsSorted w (v ∷ ws) s = ground (arith, erase-IsSorted w ws s.1, erase-IsLow v w ws s.0)

module _ {ℓ} {A : Type ℓ} where
  abbrev pub IsAbove : ℕ → List (ℕ × A) → Type 0
  IsAbove s [] = Unit
  IsAbove s ((r, t) ∷ h) = (s < r) × IsAbove s h

  abbrev pub IsAscending : List (ℕ × A) → Type 0
  IsAscending [] = Unit
  IsAscending ((r, t) ∷ h) = IsAbove r h × IsAscending h

  abbrev pub IsBelow : ℕ → List (ℕ × A) → Type 0
  IsBelow s [] = Unit
  IsBelow s ((r, t) ∷ h) = (r < s) × IsBelow s h

  find-IsAbove : (s r : ℕ) (h : List (ℕ × A)) → s ≤ r → IsAbove r h → find s h ≡ none
  unfolding find
  find-IsAbove s r [] l a = refl
  find-IsAbove s r ((q, t) ∷ h) l a = ground (arith, find-IsAbove s r h l a.1)

  pub find-erase_below :
      (s lo : ℕ) (h : List (ℕ × A))
      → IsAscending h
      → find s (erase_below lo h) ≡ (if ltb s lo then none else find s h)
  unfolding find erase_below
  find-erase_below s lo [] a = ground arith
  find-erase_below s lo ((r, t) ∷ h) a =
      ground (arith, find-erase_below s lo h a.1, find-IsAbove s r h)

  erase_below-IsAbove : (s lo : ℕ) (h : List (ℕ × A)) → IsAbove s h → IsAbove s (erase_below lo h)
  unfolding erase_below
  erase_below-IsAbove s lo [] a = tt
  erase_below-IsAbove s lo ((r, t) ∷ h) a = ground (arith, erase_below-IsAbove s lo h a.1)

  erase_below-IsAscending :
      (lo : ℕ) (h : List (ℕ × A)) → IsAscending h → IsAscending (erase_below lo h)
  unfolding erase_below
  erase_below-IsAscending lo [] a = tt
  erase_below-IsAscending lo ((r, t) ∷ h) a = ground (arith, erase_below-IsAscending lo h a.1)

  erase_below-IsBelow : (s lo : ℕ) (h : List (ℕ × A)) → IsBelow s h → IsBelow s (erase_below lo h)
  unfolding erase_below
  erase_below-IsBelow s lo [] a = tt
  erase_below-IsBelow s lo ((r, t) ∷ h) a = ground (arith, erase_below-IsBelow s lo h a.1)

  -- The ticks after one that is kept are all kept.
  pub after-erase_below :
      (s lo : ℕ) (h : List (ℕ × A))
      → IsAscending h
      → lo ≤ s
      → after s (erase_below lo h) ≡ after s h
  unfolding after erase_below
  after-erase_below s lo [] a l = refl
  after-erase_below s lo ((r, t) ∷ h) a l = ground (arith, after-erase_below s lo h a.1 l)

  emplace-IsAbove :
      (q s : ℕ) (t : A) (h : List (ℕ × A)) → q < s → IsAbove q h → IsAbove q (emplace s t h)
  unfolding emplace
  emplace-IsAbove q s t [] l a = (l, tt)
  emplace-IsAbove q s t ((r, u) ∷ h) l a = ground (arith, emplace-IsAbove q s t h l a.1)

  emplace-IsAscending :
      (s : ℕ) (t : A) (h : List (ℕ × A)) → IsBelow s h → IsAscending h → IsAscending (emplace s t h)
  unfolding emplace
  emplace-IsAscending s t [] b a = (tt, tt)
  emplace-IsAscending s t ((r, u) ∷ h) b a =
      ground (arith, emplace-IsAscending s t h b.1 a.1, emplace-IsAbove r s t h)

  emplace-IsBelow :
      (s : ℕ) (t : A) (h : List (ℕ × A)) → IsBelow s h → IsBelow (suc s) (emplace s t h)
  unfolding emplace
  emplace-IsBelow s t [] b = (omega arith, tt)
  emplace-IsBelow s t ((r, u) ∷ h) b = ground (arith, emplace-IsBelow s t h b.1)

  pub find-emplace :
      (s r : ℕ) (t : A) (h : List (ℕ × A))
      → IsBelow s h
      → find r (emplace s t h) ≡ (if r == s then some t else find r h)
  unfolding find emplace
  find-emplace s r t [] b = ground arith
  find-emplace s r t ((q, u) ∷ h) b = ground (arith, find-emplace s r t h b.1)

  map-emplace :
      (n : ℕ) (t : A) (h : List (ℕ × A))
      → IsBelow n h
      → map (λ e. e.1) (emplace n t h) ≡ map (λ e. e.1) h ++ t ∷ []
  unfolding emplace
  map-emplace n t [] b = refl
  map-emplace n t ((r, x) ∷ h) b = ground (arith, map-emplace n t h b.1)

  -- What is kept, in order, and given out already.
  pub record IsRetained (h : TickHistory A) : Type 0 where
    pub ascending : IsAscending h.history
    pub below : IsBelow h.next_sequence h.history
    pub sorted : IsSorted h.watermarks

  pub add_tick-IsRetained :
      (t : A) (h : TickHistory A)
      → h.next_sequence + 1 < u64_mod
      → IsRetained h
      → IsRetained (add_tick t h)
  unfolding add_tick
  add_tick-IsRetained t h fits v = ground (
    arith,
    emplace-IsAscending h.next_sequence t h.history v.below v.ascending,
    emplace-IsBelow h.next_sequence t h.history v.below,
  )

  pub add_watermark-IsRetained :
      (w : ℕ) (h : TickHistory A) → IsRetained h → IsRetained (add_watermark w h)
  unfolding add_watermark
  add_watermark-IsRetained w h v = ground (arith, insert-IsSorted w h.watermarks v.sorted)

  pub remove_watermark-IsRetained :
      (w : ℕ) (h : TickHistory A) → IsRetained h → IsRetained (remove_watermark w h)
  unfolding remove_watermark
  remove_watermark-IsRetained w h v = from_left (erase w h.watermarks) refl
    where
      from_left : (ws : List ℕ) → erase w h.watermarks ≡ ws → IsRetained (remove_watermark w h)
      from_left [] e = ground (arith, e, erase-IsSorted w h.watermarks v.sorted)
      from_left (lo ∷ ws) e = ground (
        arith,
        e,
        erase-IsSorted w h.watermarks v.sorted,
        erase_below-IsAscending lo h.history v.ascending,
        erase_below-IsBelow h.next_sequence lo h.history v.below,
      )

  -- With a watermark left, exactly the ticks from the lowest one on stay.
  pub find-remove_watermark :
      (s w lo : ℕ) (ws : List ℕ) (h : TickHistory A)
      → IsRetained h
      → erase w h.watermarks ≡ lo ∷ ws
      → (find s (remove_watermark w h).history ≡ (if ltb s lo then none else find s h.history))
        × IsLow lo ws
  unfolding remove_watermark
  find-remove_watermark s w lo ws h v e = ground (
    arith,
    e,
    find-erase_below s lo h.history v.ascending,
    erase-IsSorted w h.watermarks v.sorted,
  )

  -- A new tick comes after all that follow one that is kept.
  pub after-emplace :
      (s n : ℕ) (t u : A) (h : List (ℕ × A))
      → IsBelow n h
      → find s h ≡ some u
      → after s (emplace n t h) ≡ after s h ++ t ∷ []
  unfolding find after emplace
  after-emplace s n t u [] b e = absurd (ground arith)
  after-emplace s n t u ((r, x) ∷ h) b e =
      ground (arith, after-emplace s n t u h b.1, map-emplace n t h b.1)
