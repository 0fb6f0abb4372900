-- ===== src/Webhook/Replays.antt =====
-- How long a delivery is remembered, over any requests in between.
use group_bridge.Base.{
  ℕ, ◌≤◌, ◌≡◌, ◌≢◌, refl, sym, subst, ap, ◌∙◌, if_true, Bool, true, false, Option, none, some, List,
  [], ◌∷◌, ◌++◌, arith, if◌then◌else◌, Str, str_eq, length, ℤ, within, leb, counted, counted,
}
use mathlib.Core.Option.{none-ne-some}
use native.Mathlib.Nat.{le_trans}
use group_bridge.Base.Map.{
  Map, IsUnique, lookup, has, insert, keep_if, when_kept, lookup-insert, lookup-insert_self,
  keep_if-insert, lookup-keep_if-none, has-eq_lookup, lookup-keep_if, keep_if-IsUnique,
  insert-IsUnique, length-insert, length-keep_if,
}
use group_bridge.Webhook.Events.{Hint}
use group_bridge.Webhook.Handler.{
  Settings, HttpRequest, Readings, Response, accepted, method_not_allowed, Handler, max_seen,
  reject, replayed, examine, deliver, serve_http,
}
use group_bridge.Webhook.Accepted.{remembered, IsNew, taken, serve_http-IsNew, serve_http-accepted}

-- The handler remembers each delivery once, and never more than the limit.
pub record IsBounded (h : Handler) : Type 0 where
  pub unique : IsUnique h.seen
  pub fits : length h.seen ≤ max_seen

replayed-IsBounded :
    (skew : ℕ) (r : Readings) (d : Str) (seen : Map Str ℤ)
    → IsUnique seen
    → length seen ≤ max_seen
    → IsUnique (replayed skew r d seen).1 × (length (replayed skew r d seen).1 ≤ max_seen)
unfolding replayed
replayed-IsBounded skew r d seen u b =
    let recent = λ (t : ℤ). within r.cutoff_at t skew in
    by_test (keep_if recent seen) (keep_if-IsUnique recent seen u)
      (le_trans (length-keep_if recent seen) b)
  where
    by_test :
        (kept : Map Str ℤ)
        → IsUnique kept
        → length kept ≤ max_seen
        → let after : Bool × Map Str ℤ =
            if has d kept
            then (true, kept)
            else if leb max_seen (length kept)
            then (true, kept)
            else (false, insert d r.seen_at kept) in
          IsUnique after.1 × (length after.1 ≤ max_seen)
    by_test kept u b =
        ground (arith, insert-IsUnique d r.seen_at kept, length-insert d r.seen_at kept)

replayed-keeps :
    (skew : ℕ) (r : Readings) (d : Str) (seen : Map Str ℤ) (k : Str) (t : ℤ)
    → IsUnique seen
    → lookup k seen ≡ some t
    → within r.cutoff_at t skew ≡ true
    → lookup k (replayed skew r d seen).1 ≡ some t
unfolding replayed
replayed-keeps skew r d seen k t u e w =
    let recent = λ (t : ℤ). within r.cutoff_at t skew in
    by_test (keep_if recent seen)
      (lookup-keep_if recent k seen u ∙ ap (when_kept recent) e ∙ if_true _ _ _ w)
  where
    by_test :
        (kept : Map Str ℤ)
        → lookup k kept ≡ some t
        → let after : Bool × Map Str ℤ =
            if has d kept
            then (true, kept)
            else if leb max_seen (length kept)
            then (true, kept)
            else (false, insert d r.seen_at kept) in
          lookup k after.1 ≡ some t
    by_test kept e = ground (arith, lookup-insert k d r.seen_at kept, has-eq_lookup d kept)

module _ (c : Settings) (r : Readings) (q : HttpRequest) (h : Handler) where
  seen-deliver :
      (hint : Hint)
      → (deliver c r q (some hint) h).1.seen ≡ (replayed c.max_skew r q.delivery h.seen).1
  unfolding deliver
  seen-deliver hint = by_replay (replayed c.max_skew r q.delivery h.seen)
    where
      by_replay :
          (p : Bool × Map Str ℤ)
          → (if p.0 then reject (record h { seen = p.1 }) else (
            accepted,
            record h {
              seen = p.1;
              accepts = counted h.accepts 1;
              triggered = h.triggered ++ (hint ∷ []);
            },
          )).1.seen
            ≡ p.1
      by_replay (true, seen) = refl
      by_replay (false, seen) = refl

  -- After a request the handler remembers what it did, or what the test for a replay left.
  seen-serve_http :
      (P : Map Str ℤ → Type 0)
      → P h.seen
      → P (replayed c.max_skew r q.delivery h.seen).1
      → P (serve_http c r q h).1.seen
  unfolding serve_http
  seen-serve_http P old new = by_method q.is_post (examine c r q q.body)
    where
      by_method :
          (b : Bool) (o : Option Hint)
          → P (if b then deliver c r q o h else (method_not_allowed, h)).1.seen
      by_method false o = old
      by_method true none = unfold deliver in old
      by_method true (some hint) = rw (seen-deliver hint) new

  -- Every request, accepted or not, leaves the handler with distinct deliveries within the limit.
  serve_http-IsBounded : IsBounded h → IsBounded (serve_http c r q h).1
  serve_http-IsBounded b =
      let kept = replayed-IsBounded c.max_skew r q.delivery h.seen b.unique b.fits in
      record {
        unique = seen-serve_http (λ m. IsUnique m) b.unique kept.0;
        fits = seen-serve_http (λ m. length m ≤ max_seen) b.fits kept.1;
      }

  serve_http-keeps :
      (k : Str) (t : ℤ)
      → IsBounded h
      → lookup k h.seen ≡ some t
      → within r.cutoff_at t c.max_skew ≡ true
      → lookup k (serve_http c r q h).1.seen ≡ some t
  serve_http-keeps k t b e w =
      seen-serve_http (λ m. lookup k m ≡ some t) e
        (replayed-keeps c.max_skew r q.delivery h.seen k t b.unique e w)

-- The handler after some requests, each with its readings.
unfoldable pub serve_all : Settings → List (Readings × HttpRequest) → Handler → Handler
serve_all c [] h = h
serve_all c ((r, q) ∷ rest) h = serve_all c rest (serve_http c r q h).1

-- Each request comes no later than `max_skew` after the time `t`.
abbrev pub Before : ℕ → ℤ → List (Readings × HttpRequest) → Type 0
Before skew t [] = Unit
Before skew t ((r, q) ∷ rest) = (within r.cutoff_at t skew ≡ true) × Before skew t rest

serve_all-keeps :
    (c : Settings) (rest : List (Readings × HttpRequest)) (h : Handler) (k : Str) (t : ℤ)
    → IsBounded h
    → lookup k h.seen ≡ some t
    → Before c.max_skew t rest
    → IsBounded (serve_all c rest h) × (lookup k (serve_all c rest h).seen ≡ some t)
unfolding serve_all
serve_all-keeps c [] h k t b e w = (b, e)
serve_all-keeps c ((r, q) ∷ rest) h k t b e w =
    serve_all-keeps c rest _ k t (serve_http-IsBounded c r q h b)
      (serve_http-keeps c r q h k t b e w.0) w.1

-- From a handler with distinct deliveries within the limit, once a delivery is accepted, no request
-- with its id is accepted again in the next `max_skew` of time, whatever requests come in between.
pub no_replay :
    (c : Settings) (h : Handler) (r r' : Readings) (q q' : HttpRequest)
    (between : List (Readings × HttpRequest))
    → IsBounded h
    → (serve_http c r q h).0 ≡ accepted
    → Before c.max_skew r.seen_at between
    → within r'.cutoff_at r.seen_at c.max_skew ≡ true
    → q'.delivery ≡ q.delivery
    → (serve_http c r' q' (serve_all c between (serve_http c r q h).1)).0 ≢ accepted
unfolding remembered
no_replay c h r r' q q' between b a w w' same again =
    let (hint, n) = serve_http-accepted c r q h a in
    let done = serve_http-IsNew c r q hint h n in
    let first : lookup q.delivery (serve_http c r q h).1.seen ≡ some r.seen_at =
      subst (λ (p : Response × Handler). lookup q.delivery p.1.seen ≡ some r.seen_at) (sym done)
        (lookup-insert_self q.delivery r.seen_at (remembered c r h)) in
    let (b', e) =
      serve_all-keeps c between _ q.delivery r.seen_at (serve_http-IsBounded c r q h b) first w in
    let (hint', n') = serve_http-accepted c r' q' _ again in
    let recent = λ (t : ℤ). within r'.cutoff_at t c.max_skew in
    let kept =
      lookup-keep_if recent q.delivery _ b'.unique ∙ ap (when_kept recent) e ∙ if_true _ _ _ w' in
    let unseen =
      subst (λ d. lookup d (remembered c r' (serve_all c between (serve_http c r q h).1)) ≡ none)
        same n'.unseen in
    none-ne-some _ (sym unseen ∙ kept)

-- A request that is new and genuine is accepted, and the very same request is accepted again, where
-- it is still genuine once its delivery is forgotten.
pub replay_gap :
    (c : Settings) (r r' : Readings) (q : HttpRequest) (hint : Hint) (h : Handler)
    → IsNew c r q hint h
    → within r'.cutoff_at r.seen_at c.max_skew ≡ false
    → examine c r' q q.body ≡ some hint
    → ((serve_http c r q h).0 ≡ accepted)
      × ((serve_http c r' q (serve_http c r q h).1).0 ≡ accepted)
unfolding remembered
replay_gap c r r' q hint h n late genuine =
    let done = serve_http-IsNew c r q hint h n in
    let recent = λ (t : ℤ). within r'.cutoff_at t c.max_skew in
    let m = remembered c r h in
    let same : remembered c r' (taken c r q hint h) ≡ keep_if recent m =
      keep_if-insert recent q.delivery r.seen_at m n.unseen late in
    let again : IsNew c r' q hint (taken c r q hint h) = record {
      post = n.post;
      examined = genuine;
      unseen = ap (lookup q.delivery) same ∙ lookup-keep_if-none recent q.delivery m n.unseen;
      room = omega (arith, ap (λ (k : Map Str ℤ). length k) same, length-keep_if recent m, n.room);
    } in
    (
      ap (λ (p : Response × Handler). p.0) done,
      subst (λ (p : Response × Handler). (serve_http c r' q p.1).0 ≡ accepted) (sym done)
          (ap (λ (p : Response × Handler). p.0)
            (serve_http-IsNew c r' q hint (taken c r q hint h) again)),
    )
