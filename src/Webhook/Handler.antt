-- ===== src/Webhook/Handler.antt =====
-- internal/webhook/keycloak.go: the handler. HMAC-SHA-256 and the JSON decoder are parameters, and
-- so are the readings of the clock and of the secret that a request takes. Times are nanoseconds.
use group_bridge.Base.{
  ℕ, ◌*◌, ◌+◌, ◌-◌, Bool, true, false, ◌&&◌, Option, none, some, List, [], ◌∷◌, ◌++◌, ◌==◌,
  if◌then◌else◌, Str, str_eq, number_eq, bytes, is_empty, not, leb, ltb, length, ℤ, pos, negsuc,
  within, counted,
}
use group_bridge.Base.Map.{Map, has, insert, keep_if}
use group_bridge.Webhook.Events.{Envelope, Hint, classify}
use group_bridge.Webhook.Signature.{parse_int, valid_signature}

-- What the handler is built with.
pub record Settings : Type 0 where
  pub realm : Str
  pub max_skew : ℕ
  pub hmac : Str → Str → Str
  pub decode : Str → Option Envelope

-- `body` is `none` where the body cannot be read or passes 64 KiB.
pub record HttpRequest : Type 0 where
  pub is_post : Bool
  pub body : Option Str
  pub timestamp : Str
  pub delivery : Str
  pub signature : Str

-- The secret, if it could be loaded, and the three readings of the clock, in their order.
pub record Readings : Type 0 where
  pub secret : Option Str
  pub fresh_at : ℤ
  pub cutoff_at : ℤ
  pub seen_at : ℤ

pub data Response : Type 0 where
  method_not_allowed unauthorized accepted : Response

pub record Handler : Type 0 where
  pub seen : Map Str ℤ
  pub triggered : List Hint
  pub accepts : ℕ
  pub rejects : ℕ

abbrev pub max_seen : ℕ
max_seen = 10000

-- time.Unix(seconds, 0)
unfoldable pub unix : ℤ → ℤ
unix (pos s) = pos (s * 1000000000)
unix (negsuc s) = negsuc ((s + 1) * 1000000000 - 1)

-- The age of `t` lies between -maxSkew and maxSkew.
unfoldable pub fresh : ℕ → ℤ → ℤ → Bool
fresh max_skew now t = within now t max_skew && within t now max_skew

unfoldable pub reject : Handler → Response × Handler
reject h = (unauthorized, record h { rejects = counted h.rejects 1 })

-- Whether the delivery is a replay, and the deliveries seen after it.
unfoldable pub replayed : ℕ → Readings → Str → Map Str ℤ → Bool × Map Str ℤ
replayed max_skew r delivery seen =
    let kept = keep_if (λ seen_at. within r.cutoff_at seen_at max_skew) seen in
    if has delivery kept
    then (true, kept)
    else if leb max_seen (length kept)
    then (true, kept)
    else (false, insert delivery r.seen_at kept)

abbrev pub fits : ℕ → ℤ → Option ℤ → Bool
fits max_skew now none = false
fits max_skew now (some seconds) = fresh max_skew now (unix seconds)

-- The checks of the headers that come before the signature.
unfoldable pub headers_pass : Settings → Readings → HttpRequest → Bool
unfolding unix fresh
headers_pass c r q =
    fits c.max_skew r.fresh_at (parse_int q.timestamp)
    && (not (is_empty q.delivery) && leb (length q.delivery) 128)

abbrev pub signs : Settings → HttpRequest → Str → Option Str → Bool
signs c q body none = false
signs c q body (some secret) =
    if ltb (length secret) 32
    then false
    else valid_signature c.hmac secret q.timestamp q.delivery body q.signature

unfoldable pub signature_passes : Settings → Readings → HttpRequest → Str → Bool
signature_passes c r q body = signs c q body r.secret

-- The checks of the decoded envelope.
unfoldable pub envelope_passes : Settings → HttpRequest → Envelope → Bool
envelope_passes c q e =
    e.spec_version == bytes "1.0"
    && (not (is_empty e.event_id) && (e.event_id == q.delivery && e.realm_name == c.realm))

abbrev pub checked : Bool → Option Envelope → Option Hint
checked false e = none
checked true none = none
checked true (some e) = classify e

abbrev pub passing : Settings → HttpRequest → Option Envelope → Option Envelope
passing c q none = none
passing c q (some e) = if envelope_passes c q e then some e else none

-- Everything before the test for a replay: the hint, if the request is genuine.
unfoldable pub examine : Settings → Readings → HttpRequest → Option Str → Option Hint
unfolding headers_pass signature_passes envelope_passes
examine c r q none = none
examine c r q (some body) =
    checked (headers_pass c r q && signature_passes c r q body) (passing c q (c.decode body))

-- The rest, for a genuine request.
unfoldable pub deliver :
    Settings → Readings → HttpRequest → Option Hint → Handler → Response × Handler
unfolding reject replayed
deliver c r q none h = reject h
deliver c r q (some hint) h =
    let (replay, seen) = replayed c.max_skew r q.delivery h.seen in
    if replay then reject (record h { seen = seen }) else (
      accepted,
      record h {
        seen = seen;
        accepts = counted h.accepts 1;
        triggered = h.triggered ++ (hint ∷ []);
      },
    )

unfoldable pub serve_http : Settings → Readings → HttpRequest → Handler → Response × Handler
serve_http c r q h =
    if q.is_post then deliver c r q (examine c r q q.body) h else (method_not_allowed, h)
