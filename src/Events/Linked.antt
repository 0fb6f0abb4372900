-- ===== src/Events/Linked.antt =====
-- What the loops of the route index do to the groups of a user.
use group_bridge.Base.{
  ◌≡◌, refl, Bool, true, false, ◌&&◌, ◌||◌, Option, List, [], ◌∷◌, ◌++◌, ◌==◌, if◌then◌else◌,
  contains, not, arith, Str, str_eq, bytes,
}
use group_bridge.Base.Map.{
  Map, lookup, has, insert, erase, lookup-insert, lookup-erase, has-insert, has-erase,
}
use group_bridge.Events.Routes.{
  Names, or_empty, names, message, routing_key, group_route, user_route, link, link_all, put_names,
  unlink, unlink_all,
}

append_cancel : (p s t : Str) → p ++ s ≡ p ++ t → s ≡ t
append_cancel [] s t e = e
append_cancel (c ∷ p) s t e = append_cancel p s t (ground arith)

-- The name is in the set that is on record, if one is.
abbrev pub in_set : Str → Option Names → Bool
in_set x o = has x (or_empty o)

pub contains-names : (v : Str) (s : Names) → contains (names s) v ≡ has v s
unfolding has
contains-names v [] = refl
contains-names v ((k, _) ∷ s) = ground (arith, contains-names v s)

in_set-put_names :
    (mac : Str → Str → Str) (realm h j k : Str) (s : Names) (m : Map Str Names)
    → in_set h (lookup j (put_names mac realm k s m))
      ≡ (if j == k then has h s else in_set h (lookup j m))
unfolding has
in_set-put_names mac realm h j k [] m = ground (arith, lookup-erase j k m)
in_set-put_names mac realm h j k (n ∷ s) m = ground (arith, lookup-insert j k (n ∷ s) m)

module _ (mac : Str → Str → Str) (realm : Str)
    (distinct : (s m m' : Str) → mac s m ≡ mac s m' → m ≡ m') where
  message_injective : (d x y : Str) → message mac realm d x ≡ message mac realm d y → x ≡ y
  message_injective d x y e = append_cancel (10 ∷ []) x y (
      append_cancel (10 ∷ realm) _ _
        (append_cancel (10 ∷ d) _ _ (append_cancel (bytes "groupbridge-route-v1") _ _ e)))

  pub group_route_injective :
      (s g h : Str) → group_route mac realm s g ≡ group_route mac realm s h → g ≡ h
  unfolding routing_key
  group_route_injective s g h e = message_injective (bytes "group") g h (distinct s _ _ e)

  user_route_injective : (s u v : Str) → user_route mac realm s u ≡ user_route mac realm s v → u ≡ v
  unfolding routing_key
  user_route_injective s u v e = message_injective (bytes "user") u v (distinct s _ _ e)

  in_set-link :
      (s g u h v : Str) (m : Map Str Names)
      → in_set h (lookup (user_route mac realm s v) (link mac realm s g u m)) ≡ (
          if v == u
          then (if h == g then true else in_set h (lookup (user_route mac realm s v) m))
          else in_set h (lookup (user_route mac realm s v) m))
  unfolding link
  in_set-link s g u h v m = ground (
    arith,
    lookup-insert (user_route mac realm s v) (user_route mac realm s u)
        (insert g tt (or_empty (lookup (user_route mac realm s u) m))) m,
    has-insert h g tt (or_empty (lookup (user_route mac realm s u) m)),
    user_route_injective s v u,
  )

  pub in_set-link_all :
      (s g : Str) (us : List Str) (h v : Str) (m : Map Str Names)
      → in_set h (lookup (user_route mac realm s v) (link_all mac realm s g us m))
        ≡ ((h == g && contains us v) || in_set h (lookup (user_route mac realm s v) m))
  unfolding link_all
  in_set-link_all s g [] h v m = ground arith
  in_set-link_all s g (u ∷ us) h v m =
      ground (arith, in_set-link_all s g us h v (link mac realm s g u m), in_set-link s g u h v m)

  in_set-unlink :
      (s g u h v : Str) (m : Map Str Names)
      → in_set h (lookup (user_route mac realm s v) (unlink mac realm s g u m)) ≡ (
          if v == u
          then (if h == g then false else in_set h (lookup (user_route mac realm s v) m))
          else in_set h (lookup (user_route mac realm s v) m))
  unfolding unlink
  in_set-unlink s g u h v m = ground (
    arith,
    in_set-put_names mac realm h (user_route mac realm s v) (user_route mac realm s u)
        (erase g (or_empty (lookup (user_route mac realm s u) m))) m,
    has-erase h g (or_empty (lookup (user_route mac realm s u) m)),
    user_route_injective s v u,
  )

  pub in_set-unlink_all :
      (s g : Str) (us : List Str) (h v : Str) (m : Map Str Names)
      → in_set h (lookup (user_route mac realm s v) (unlink_all mac realm s g us m))
        ≡ (not (h == g && contains us v) && in_set h (lookup (user_route mac realm s v) m))
  unfolding unlink_all
  in_set-unlink_all s g [] h v m = ground arith
  in_set-unlink_all s g (u ∷ us) h v m =
      ground
        (arith, in_set-unlink_all s g us h v (unlink mac realm s g u m), in_set-unlink s g u h v m)
