-- ===== src/Webhook/Genuine.antt =====
-- The checks of a request, and the genuine requests that pass them.
use group_bridge.Base.{
  ℕ, ◌≤◌, ◌≡◌, ◌↔◌, refl, sym, subst, not, Bool, true, false, ◌&&◌, Option, none, some, arith, ◌==◌,
  if◌then◌else◌, Str, str_eq, number_eq, bytes, is_empty, length, has_prefix, ℤ, within, leb, ltb,
}
use group_bridge.Webhook.Events.{Envelope, Hint, classify}
use group_bridge.Webhook.Signature.{
  parse_int, hex_decode, trim_prefix, signed, is_sum, valid_signature,
}
use group_bridge.Webhook.Handler.{
  Settings, HttpRequest, Readings, unix, fresh, headers_pass, signature_passes, envelope_passes,
  checked, passing, fits, signs, examine,
}

-- The request carries the event `e` in `body`, signed with `secret` at `seconds`, and the event
-- stands for `hint`.
pub record IsGenuine (c : Settings) (r : Readings) (q : HttpRequest) (body secret : Str)
    (seconds : ℤ) (e : Envelope) (hint : Hint) : Type 0 where
  pub body_read : q.body ≡ some body
  pub dated : parse_int q.timestamp ≡ some seconds
  pub not_old : within r.fresh_at (unix seconds) c.max_skew ≡ true
  pub not_ahead : within (unix seconds) r.fresh_at c.max_skew ≡ true
  pub named : is_empty q.delivery ≡ false
  pub short : length q.delivery ≤ 128
  pub secret_read : r.secret ≡ some secret
  pub secret_long : 32 ≤ length secret
  pub marked : has_prefix q.signature (bytes "sha256=") ≡ true
  pub matching :
      hex_decode (trim_prefix q.signature (bytes "sha256="))
      ≡ some (c.hmac secret (signed q.timestamp q.delivery body))
  pub sized : length (c.hmac secret (signed q.timestamp q.delivery body)) ≡ 32
  pub decoded : c.decode body ≡ some e
  pub version : e.spec_version ≡ bytes "1.0"
  pub delivered : e.event_id ≡ q.delivery
  pub realm : e.realm_name ≡ c.realm
  pub classified : classify e ≡ some hint

-- Each check against what it means.
fresh_iff :
    (skew : ℕ) (now t : ℤ)
    → (fresh skew now t ≡ true) ↔ ((within now t skew ≡ true) × (within t now skew ≡ true))
unfolding fresh
fresh_iff skew now t = ground arith

and_iff : (a b : Bool) → ((a && b) ≡ true) ↔ ((a ≡ true) × (b ≡ true))
and_iff a b = ground arith

headers_iff :
    (c : Settings) (r : Readings) (q : HttpRequest) (seconds : ℤ)
    → parse_int q.timestamp ≡ some seconds
    → (headers_pass c r q ≡ true) ↔ (
        (fresh c.max_skew r.fresh_at (unix seconds) ≡ true)
        × (is_empty q.delivery ≡ false)
        × (length q.delivery ≤ 128))
unfolding headers_pass
headers_iff c r q seconds e =
    rw (e) (by_delivery q.delivery (fresh c.max_skew r.fresh_at (unix seconds)))
  where
    by_delivery :
        (d : Str) (b : Bool)
        → ((b && (not (is_empty d) && leb (length d) 128)) ≡ true)
          ↔ ((b ≡ true) × (is_empty d ≡ false) × (length d ≤ 128))
    by_delivery d b = ground arith

signature_iff :
    (hmac : Str → Str → Str) (secret timestamp delivery body signature : Str)
    → (valid_signature hmac secret timestamp delivery body signature ≡ true) ↔ (
        (has_prefix signature (bytes "sha256=") ≡ true)
        × (hex_decode (trim_prefix signature (bytes "sha256="))
            ≡ some (hmac secret (signed timestamp delivery body)))
        × (length (hmac secret (signed timestamp delivery body)) ≡ 32))
unfolding valid_signature
signature_iff hmac secret timestamp delivery body signature =
    by_parts (has_prefix signature (bytes "sha256="))
      (hex_decode (trim_prefix signature (bytes "sha256=")))
      (hmac secret (signed timestamp delivery body))
  where
    by_parts :
        (b : Bool) (got : Option Str) (sum : Str)
        → ((if b then is_sum got sum else false) ≡ true)
          ↔ ((b ≡ true) × (got ≡ some sum) × (length sum ≡ 32))
    by_parts false got sum = ground arith
    by_parts true none sum = ground arith
    by_parts true (some got) sum = ground arith

secret_iff :
    (c : Settings) (r : Readings) (q : HttpRequest) (body secret : Str)
    → r.secret ≡ some secret
    → (signature_passes c r q body ≡ true) ↔ (
        (32 ≤ length secret)
        × (valid_signature c.hmac secret q.timestamp q.delivery body q.signature ≡ true))
unfolding signature_passes
secret_iff c r q body secret e =
    rw (e) (by_parts secret (valid_signature c.hmac secret q.timestamp q.delivery body q.signature))
  where
    by_parts :
        (s : Str) (b : Bool)
        → ((if ltb (length s) 32 then false else b) ≡ true) ↔ ((32 ≤ length s) × (b ≡ true))
    by_parts s b = ground arith

envelope_iff :
    (c : Settings) (q : HttpRequest) (e : Envelope)
    → is_empty q.delivery ≡ false
    → (envelope_passes c q e ≡ true)
      ↔ ((e.spec_version ≡ bytes "1.0") × (e.event_id ≡ q.delivery) × (e.realm_name ≡ c.realm))
unfolding envelope_passes
envelope_iff c q e h =
    by_parts e.spec_version (bytes "1.0") e.event_id q.delivery e.realm_name c.realm h
  where
    by_parts :
        (v v' i d r r' : Str)
        → is_empty d ≡ false
        → ((v == v' && (not (is_empty i) && (i == d && r == r'))) ≡ true)
          ↔ ((v ≡ v') × (i ≡ d) × (r ≡ r'))
    by_parts v v' i d r r' h = ground arith

checked_iff :
    (c : Settings) (q : HttpRequest) (b : Bool) (e : Envelope) (hint : Hint)
    → (checked b (passing c q (some e)) ≡ some hint)
      ↔ ((b ≡ true) × (envelope_passes c q e ≡ true) × (classify e ≡ some hint))
checked_iff c q b e hint = ground arith

module _ (c : Settings) (r : Readings) (q : HttpRequest) (hint : Hint) (body secret : Str)
    (seconds : ℤ) (e : Envelope) where
  examine-IsGenuine :
      q.body ≡ some body
      → r.secret ≡ some secret
      → parse_int q.timestamp ≡ some seconds
      → c.decode body ≡ some e
      → examine c r q q.body ≡ some hint
      → IsGenuine c r q body secret seconds e hint
  unfolding examine
  examine-IsGenuine hb hs ht he h =
      let parts = (checked_iff c q (headers_pass c r q && signature_passes c r q body) e hint).0 (
        subst
          (λ o.
            checked (headers_pass c r q && signature_passes c r q body) (passing c q o) ≡ some hint)
          he (subst (λ o. examine c r q o ≡ some hint) hb h)) in
      let both = (and_iff _ _).0 parts.0 in
      let headers = (headers_iff c r q seconds ht).0 both.0 in
      let age = (fresh_iff c.max_skew r.fresh_at (unix seconds)).0 headers.0 in
      let key = (secret_iff c r q body secret hs).0 both.1 in
      let mark = (signature_iff c.hmac secret q.timestamp q.delivery body q.signature).0 key.1 in
      let event = (envelope_iff c q e headers.1).0 parts.1 in
      record {
        body_read = hb;
        dated = ht;
        not_old = age.0;
        not_ahead = age.1;
        named = headers.1;
        short = headers.2;
        secret_read = hs;
        secret_long = key.0;
        marked = mark.0;
        matching = mark.1;
        sized = mark.2;
        decoded = he;
        version = event.0;
        delivered = event.1;
        realm = event.2;
        classified = parts.2;
      }

  pub IsGenuine-examine :
      IsGenuine c r q body secret seconds e hint → examine c r q q.body ≡ some hint
  unfolding examine
  IsGenuine-examine g =
      let key = (secret_iff c r q body secret g.secret_read).1 (
        g.secret_long,
        (signature_iff c.hmac secret q.timestamp q.delivery body q.signature).1
            (g.marked, g.matching, g.sized),
      ) in
      let headers = (headers_iff c r q seconds g.dated).1 (
        (fresh_iff c.max_skew r.fresh_at (unix seconds)).1 (g.not_old, g.not_ahead),
        g.named,
        g.short,
      ) in
      let parts = (checked_iff c q (headers_pass c r q && signature_passes c r q body) e hint).1 (
        (and_iff _ _).1 (headers, key),
        (envelope_iff c q e g.named).1 (g.version, g.delivered, g.realm),
        g.classified,
      ) in
      subst (λ o. examine c r q o ≡ some hint) (sym g.body_read)
        (subst
          (λ o.
            checked (headers_pass c r q && signature_passes c r q body) (passing c q o) ≡ some hint)
          (sym g.decoded) parts)

body_needed :
    (c : Settings) (r : Readings) (q : HttpRequest) (hint : Hint) (o : Option Str)
    → examine c r q o ≡ some hint
    → (b : Str) × (o ≡ some b)
unfolding examine
body_needed c r q hint none h = cc
body_needed c r q hint (some b) h = (b, refl)

headers_needed :
    (c : Settings) (r : Readings) (q : HttpRequest)
    → headers_pass c r q ≡ true
    → (t : ℤ) × (parse_int q.timestamp ≡ some t)
unfolding headers_pass
headers_needed c r q =
    by_parsed (parse_int q.timestamp) (not (is_empty q.delivery) && leb (length q.delivery) 128)
  where
    by_parsed :
        (o : Option ℤ) (b : Bool)
        → (fits c.max_skew r.fresh_at o && b) ≡ true
        → (t : ℤ) × (o ≡ some t)
    by_parsed none b h = ground arith
    by_parsed (some t) b h = (t, refl)

secret_needed :
    (c : Settings) (r : Readings) (q : HttpRequest) (body : Str)
    → signature_passes c r q body ≡ true
    → (s : Str) × (r.secret ≡ some s)
unfolding signature_passes
secret_needed c r q body = by_secret r.secret
  where
    by_secret : (o : Option Str) → signs c q body o ≡ true → (s : Str) × (o ≡ some s)
    by_secret none h = cc
    by_secret (some s) h = (s, refl)

checked_needed :
    (c : Settings) (q : HttpRequest) (b : Bool) (o : Option Envelope) (hint : Hint)
    → checked b (passing c q o) ≡ some hint
    → (e : Envelope) × (o ≡ some e) × (b ≡ true)
checked_needed c q false o hint h = cc
checked_needed c q true none hint h = cc
checked_needed c q true (some e) hint h = (e, refl, refl)

-- Whatever passes the checks is a genuine request.
pub examine_sound :
    (c : Settings) (r : Readings) (q : HttpRequest) (hint : Hint)
    → examine c r q q.body ≡ some hint
    → (body secret : Str) × (seconds : ℤ) × (e : Envelope) × IsGenuine c r q body secret seconds e
        hint
unfolding examine
examine_sound c r q hint h =
    let (body, hb) = body_needed c r q hint q.body h in
    let h' : examine c r q (some body) ≡ some hint =
      subst (λ o. examine c r q o ≡ some hint) hb h in
    let (e, he, both) =
      checked_needed c q (headers_pass c r q && signature_passes c r q body) (c.decode body) hint
        h' in
    let parts = (and_iff (headers_pass c r q) (signature_passes c r q body)).0 both in
    let (seconds, ht) = headers_needed c r q parts.0 in
    let (secret, hs) = secret_needed c r q body parts.1 in
    (body, secret, seconds, e, examine-IsGenuine c r q hint body secret seconds e hb hs ht he h)
