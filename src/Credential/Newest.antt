-- ===== src/Credential/Newest.antt =====
-- What a stable loader serves: the newest value that was read and is long enough.
use group_bridge.Base.{
  ℕ, if_cases, zero, suc, ◌≤◌, ◌≡◌, refl, true, false, Option, none, some, List, [], ◌∷◌,
  if◌then◌else◌, Str, is_empty, length, ltb, arith,
}
use group_bridge.Base.Exec.{Result, ok, err}
use group_bridge.Credential.Reference.{Loader}
use group_bridge.Credential.Loading.{LoadError, too_short, Host, load}
use group_bridge.Credential.Stable.{
  StableLoader, NewError, long_enough, retained, stable_load, created, new_stable,
}

abbrev pub valid : ℕ → Result LoadError Str → Option Str
valid min (ok value) = if ltb (length value) min then none else some value
valid min (err e) = none

abbrev pub newer : Option Str → Option Str → Option Str
newer before none = before
newer before (some value) = some value

-- The newest valid value of some reads, the oldest first, and of what was there before them.
unfoldable pub newest : ℕ → Option Str → List (Result LoadError Str) → Option Str
newest min before [] = before
newest min before (r ∷ rs) = newest min (newer before (valid min r)) rs

abbrev pub or_last : Option Str → Result LoadError Str → Result LoadError Str
or_last none r = r
or_last (some value) r = ok value

abbrev pub held : StableLoader → Option Str
held l = if is_empty l.last then none else some l.last

module _ {W : Type 0} (host : Host W) where
  -- The reads of the source itself, each at the state that the one before left.
  unfoldable pub reads : Loader → ℕ → W → List (Result LoadError Str)
  reads source zero w = []
  reads source (suc n) w = let (r, v) = load host source w in r ∷ reads source n v

  -- The outcome of the read after so many.
  unfoldable pub read_after : Loader → ℕ → W → Result LoadError Str
  read_after source zero w = (load host source w).0
  read_after source (suc n) w = read_after source n (load host source w).1

  -- The answer of the stable loader after so many others.
  unfoldable pub served_after : ℕ → StableLoader × W → Result LoadError Str
  served_after zero s = (stable_load host s).0
  served_after (suc n) s = served_after n (stable_load host s).1

  -- A loader that serves what it retains.
  abbrev IsServed : ℕ → Loader → Option Str → Result LoadError Str × StableLoader → Type 0
  IsServed min source now (r, l) = (held l ≡ now) × (l.source ≡ source) × (l.min_bytes ≡ min)

  filled :
      (value : Str) (min : ℕ) → 1 ≤ min → ltb (length value) min ≡ false → is_empty value ≡ false
  filled [] min p e = ground arith
  filled (c ∷ s) min p e = refl

  retained-newer :
      (l : StableLoader) (r : Result LoadError Str)
      → 1 ≤ l.min_bytes
      → ((retained l (long_enough l.min_bytes r)).0
          ≡ or_last (newer (held l) (valid l.min_bytes r)) (long_enough l.min_bytes r))
        × IsServed l.min_bytes l.source
            (newer (held l) (valid l.min_bytes r))
            (retained l (long_enough l.min_bytes r))
  retained-newer l (ok value) p = ground (arith, filled value l.min_bytes p)
  retained-newer l (err e) p = ground arith

  -- The result of the source, and whether the loader still holds a valid value.
  step :
      (l : StableLoader) (w : W)
      → 1 ≤ l.min_bytes
      → ((stable_load host (l, w)).0
          ≡ or_last
              (newer (held l) (valid l.min_bytes (load host l.source w).0))
              (long_enough l.min_bytes (load host l.source w).0))
        × IsServed l.min_bytes l.source
            (newer (held l) (valid l.min_bytes (load host l.source w).0))
            ((stable_load host (l, w)).0, (stable_load host (l, w)).1.0)
        × ((stable_load host (l, w)).1.1 ≡ (load host l.source w).1)
  unfolding stable_load
  step l w p = let q = retained-newer l (load host l.source w).0 p in (q.0, q.1, refl)

  -- The same of a loader that is known by what it serves.
  served_after-from :
      (n min : ℕ) (source : Loader) (before : Option Str) (l : StableLoader) (w : W)
      → 1 ≤ min
      → held l ≡ before
      → l.source ≡ source
      → l.min_bytes ≡ min
      → served_after n (l, w)
        ≡ or_last
            (newest min before (reads source (suc n) w))
            (long_enough min (read_after source n w))
  unfolding served_after newest reads read_after
  served_after-from zero min source before l w p h s m =
      let q = step l w (ground (arith, p, m)) in cc
  served_after-from (suc n) min source before l w p h s m =
      let q = step l w (ground (arith, p, m)) in
      let next = (stable_load host (l, w)).1 in
      let later =
        served_after-from n min source (newer before (valid min (load host source w).0)) next.0
          next.1 p (cc) (cc) (cc) in
      cc

  -- A loader whose minimum is positive serves, at each load, the newest value that its source has
  -- given so far and that is long enough, or the one that it retained before, and the error of the
  -- present read if there is none.
  pub served_after-newest :
      (n : ℕ) (l : StableLoader) (w : W)
      → 1 ≤ l.min_bytes
      → served_after n (l, w)
        ≡ or_last
            (newest l.min_bytes (held l) (reads l.source (suc n) w))
            (long_enough l.min_bytes (read_after l.source n w))
  served_after-newest n l w p =
      served_after-from n l.min_bytes l.source (held l) l w p refl refl refl

  -- A loader that retains a value of the required length.
  abbrev IsFilled : ℕ → StableLoader → Type 0
  IsFilled min l = (l.min_bytes ≡ min) × (1 ≤ min) × (min ≤ length l.last)

  abbrev IsLong : ℕ → Result LoadError Str → Type 0
  IsLong min r = (value : Str) × (r ≡ ok value) × (min ≤ length value)

  nothing : (s : Str) → is_empty s ≡ true → length s ≡ 0
  nothing [] e = refl
  nothing (c ∷ s) e = absurd (ground arith)

  abbrev Retains : ℕ → StableLoader → Result LoadError Str → Type 0
  Retains min l r = IsLong min (retained l r).0 × IsFilled min (retained l r).1

  retained-IsFilled :
      (min : ℕ) (l : StableLoader) (e : LoadError) → IsFilled min l → Retains min l (err e)
  retained-IsFilled min l e f =
      if_cases (λ (x : Result LoadError Str × StableLoader). IsLong min x.0 × IsFilled min x.1)
        (is_empty l.last) (err e, l) (ok l.last, l)
        (λ h. absurd (let z = nothing l.last h in omega (arith, z, f.1, f.2)))
        (λ h. ((l.last, refl, f.2), f))

  long_enough-Retains :
      (min : ℕ) (l : StableLoader) (r : Result LoadError Str)
      → IsFilled min l
      → Retains min l (long_enough l.min_bytes r)
  long_enough-Retains min l (err e) f = retained-IsFilled min l e f
  long_enough-Retains min l (ok value) f =
      if_cases (Retains min l) (ltb (length value) l.min_bytes) (err too_short) (ok value)
        (λ h. retained-IsFilled min l too_short f)
        (λ h. ((value, refl, ground (arith, f.0, h)), (f.0, f.1, ground (arith, f.0, h))))

  served_after-IsLong :
      (n min : ℕ) (l : StableLoader) (w : W) → IsFilled min l → IsLong min (served_after n (l, w))
  unfolding served_after stable_load
  served_after-IsLong zero min l w f = (long_enough-Retains min l (load host l.source w).0 f).0
  served_after-IsLong (suc n) min l w f =
      served_after-IsLong n min _ _ (long_enough-Retains min l (load host l.source w).0 f).1

  abbrev unread : Loader → ℕ → StableLoader
  unread source min = record { source = source; min_bytes = min; last = [] }

  abbrev outcome : StableLoader → W → Result LoadError Str → Result NewError StableLoader × W
  outcome l w r = created ((retained l r).0, ((retained l r).1, w))

  created-IsFilled :
      (min : ℕ) (source : Loader) (l : StableLoader) (r : Result LoadError Str) (w v : W)
      → 1 ≤ min
      → outcome (unread source min) w (long_enough min r) ≡ (ok l, v)
      → IsFilled min l
  created-IsFilled min source l (err e) w v p = λ q. ground arith
  created-IsFilled min source l (ok value) w v p =
      if_cases (λ r. outcome (unread source min) w r ≡ (ok l, v) → IsFilled min l)
        (ltb (length value) min) (err too_short) (ok value) (λ h q. ground arith)
        (λ h q. ground (arith, p, h, q))

  -- A stable loader that was made with success serves a value of the required length at every later
  -- load, whatever its source does.
  pub new_stable-served_after :
      (source : Loader) (min : ℕ) (w : W) (l : StableLoader) (v : W)
      → new_stable host source min w ≡ (ok l, v)
      → (n : ℕ) → (value : Str) × (served_after n (l, v) ≡ ok value) × (min ≤ length value)
  unfolding new_stable stable_load
  new_stable-served_after source min w l v e n = served_after-IsLong n min l v (
      if_cases (λ (r : Result NewError StableLoader × W). r ≡ (ok l, v) → IsFilled min l)
        (ltb min 1) _ _ (λ h q. ground arith)
        (λ h.
          created-IsFilled min source l (load host source w).0 (load host source w).1 v
            (ground (arith, h)))
        e)
