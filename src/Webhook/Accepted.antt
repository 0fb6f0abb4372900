-- ===== src/Webhook/Accepted.antt =====
-- Exactly which requests the handler accepts, and what an accepted one changes.
use group_bridge.Base.{
  ◌<◌, ◌≡◌, ◌↔◌, refl, ap, ◌∙◌, if_true, Bool, true, false, Option, none, some, [], ◌∷◌, ◌++◌,
  arith, if◌then◌else◌, Str, str_eq, number_eq, length, ℤ, within, counted,
}
use group_bridge.Base.Map.{Map, lookup, insert, keep_if, has-eq_lookup}
use group_bridge.Webhook.Events.{Envelope, Hint}
use group_bridge.Webhook.Handler.{
  Settings, HttpRequest, Readings, Response, accepted, method_not_allowed, Handler, max_seen,
  examine, deliver, serve_http,
}
use group_bridge.Webhook.Genuine.{IsGenuine, IsGenuine-examine, examine_sound}

-- The deliveries that a request at this time still remembers.
unfoldable pub remembered : Settings → Readings → Handler → Map Str ℤ
remembered c r h = keep_if (λ seen_at. within r.cutoff_at seen_at c.max_skew) h.seen

-- A POST for which `hint` stands, whose delivery is not remembered, where there is room.
pub record IsNew (c : Settings) (r : Readings) (q : HttpRequest) (hint : Hint) (h : Handler)
    : Type 0 where
  pub post : q.is_post ≡ true
  pub examined : examine c r q q.body ≡ some hint
  pub unseen : lookup q.delivery (remembered c r h) ≡ none
  pub room : length (remembered c r h) < max_seen

abbrev pub taken : Settings → Readings → HttpRequest → Hint → Handler → Handler
taken c r q hint h = record {
  seen = insert q.delivery r.seen_at (remembered c r h);
  triggered = h.triggered ++ (hint ∷ []);
  accepts = counted h.accepts 1;
  rejects = h.rejects;
}

deliver-taken :
    (c : Settings) (r : Readings) (q : HttpRequest) (hint : Hint) (h : Handler)
    → lookup q.delivery (remembered c r h) ≡ none
    → length (remembered c r h) < max_seen
    → deliver c r q (some hint) h ≡ (accepted, taken c r q hint h)
unfolding deliver remembered
deliver-taken c r q hint h new room = ground (arith, has-eq_lookup q.delivery (remembered c r h))

deliver-accepted :
    (c : Settings) (r : Readings) (q : HttpRequest) (o : Option Hint) (h : Handler)
    → (deliver c r q o h).0 ≡ accepted
    → (hint : Hint) × (o ≡ some hint)
      × (lookup q.delivery (remembered c r h) ≡ none)
      × (length (remembered c r h) < max_seen)
unfolding deliver remembered
deliver-accepted c r q none h e = ground arith
deliver-accepted c r q (some hint) h e = (
  hint,
  refl,
  ground (arith, has-eq_lookup q.delivery (remembered c r h)),
  ground (arith, has-eq_lookup q.delivery (remembered c r h)),
)

-- A new genuine request is accepted; its hint is handed on, and its delivery is remembered.
pub serve_http-IsNew :
    (c : Settings) (r : Readings) (q : HttpRequest) (hint : Hint) (h : Handler)
    → IsNew c r q hint h
    → serve_http c r q h ≡ (accepted, taken c r q hint h)
unfolding serve_http
serve_http-IsNew c r q hint h n =
    if_true q.is_post _ _ n.post
    ∙ ap (λ o. deliver c r q o h) n.examined
    ∙ deliver-taken c r q hint h n.unseen n.room

-- Only a POST that passes every check and is no replay is accepted.
pub serve_http-accepted :
    (c : Settings) (r : Readings) (q : HttpRequest) (h : Handler)
    → (serve_http c r q h).0 ≡ accepted
    → (hint : Hint) × IsNew c r q hint h
unfolding serve_http
serve_http-accepted c r q h = by_method q.is_post refl
  where
    by_method :
        (b : Bool)
        → q.is_post ≡ b
        → (if b then deliver c r q (examine c r q q.body) h else (method_not_allowed, h)).0
          ≡ accepted
        → (hint : Hint) × IsNew c r q hint h
    by_method false p e = ground arith
    by_method true p e =
        let (hint, x, new, room) = deliver-accepted c r q (examine c r q q.body) h e in
        (hint, record { post = p; examined = x; unseen = new; room = room })

-- A request is accepted exactly if it is a POST that is genuine in every respect (in size, age,
-- signature, event and realm), whose delivery is not remembered, while there is room to remember it.
pub accepted_iff :
    (c : Settings) (r : Readings) (q : HttpRequest) (h : Handler)
    → ((serve_http c r q h).0 ≡ accepted) ↔ (
        (hint : Hint) × (body secret : Str) × (seconds : ℤ) × (e : Envelope) × IsGenuine c r q body
          secret seconds e hint
        × (q.is_post ≡ true)
        × (lookup q.delivery (remembered c r h) ≡ none)
        × (length (remembered c r h) < max_seen))
accepted_iff c r q h = (
  λ a.
      let (hint, n) = serve_http-accepted c r q h a in
      let (body, secret, seconds, e, g) = examine_sound c r q hint n.examined in
      (hint, body, secret, seconds, e, g, n.post, n.unseen, n.room),
  λ (hint, body, secret, seconds, e, g, post, unseen, room).
      let n : IsNew c r q hint h = record {
        post = post;
        examined = IsGenuine-examine c r q hint body secret seconds e g;
        unseen = unseen;
        room = room;
      } in
      ap (λ (p : Response × Handler). p.0) (serve_http-IsNew c r q hint h n),
)
