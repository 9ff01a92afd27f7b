-- ===== src/Backend/OpenVpn3/Tracking.antt =====
-- Every subscription of eovpn/backend/openvpn3/dbus.py is one that the backend can end.
use e_ovpn_pro.Base.{
  ℕ, suc, Bool, true, false, not, ◌||◌, Option, none, some, List, [], ◌∷◌, ◌++◌, Text, any, ◌==◌,
  is_some, if◌then◌else◌, ◌≡◌, refl, ap, ◌∙◌, arith,
}
use e_ovpn_pro.Events.{flag}
use e_ovpn_pro.Backend.OpenVpn3.{
  log, log_forward, connect_vpn, callback, set_dco, get_attention, Backend, Outside, Attention,
  StatusMinor, drop_id, unsubscribe, unsubscribe_each, unsubscribe_attention, unsubscribe_all,
  subscribe_for_attention, subscribe_for_events, start_watch, stop_watch, disconnect_session,
  disconnect, try_to_connect, answer, answer_all, attention_in, sub_status_signal, conn_auth_failed,
  conn_connecting, conn_connected, conn_disconnected, conn_paused, conn_resuming, other_status,
}

abbrev pub has : ℕ → List ℕ → Bool
has k = any (λ j. j == k)

abbrev pub is_attention : ℕ → Option ℕ → Bool
is_attention k none = false
is_attention k (some i) = i == k

-- Every subscription on the bus is one that the backend knows of.
unfoldable pub IsTracked : Backend → Type 0
IsTracked b =
    (k : ℕ)
    → has k b.live ≡ true
    → is_attention k b.attention_subscription || has k b.subscriptions ≡ true

has-drop_id : (i k : ℕ) (js : List ℕ) → has k (drop_id i js) ≡ (if i == k then false else has k js)
unfolding drop_id
has-drop_id i k [] = ground arith
has-drop_id i k (j ∷ js) = ground (arith, has-drop_id i k js)

has-unsubscribe_each :
    (is : List ℕ) (k : ℕ) (b : Backend)
    → has k (unsubscribe_each is b).live ≡ (if has k is then false else has k b.live)
unfolding unsubscribe_each unsubscribe
has-unsubscribe_each [] k b = refl
has-unsubscribe_each (i ∷ is) k b =
    has-unsubscribe_each is k (unsubscribe i b) ∙ ground (arith, has-drop_id i k b.live)

has-unsubscribe_attention :
    (o : Option ℕ) (k : ℕ) (b : Backend)
    → has k (unsubscribe_attention o b).live ≡ (if is_attention k o then false else has k b.live)
unfolding unsubscribe_attention unsubscribe
has-unsubscribe_attention none k b = refl
has-unsubscribe_attention (some i) k b = has-drop_id i k b.live

empty_of_has : (xs : List ℕ) → ((k : ℕ) → has k xs ≡ false) → xs ≡ []
empty_of_has [] h = refl
empty_of_has (x ∷ xs) h = absurd (let e = h x in ground arith)

pub unsubscribe_all-clears : (b : Backend) → IsTracked b → (unsubscribe_all b).live ≡ []
unfolding unsubscribe_all IsTracked
unsubscribe_all-clears b h = empty_of_has (unsubscribe_all b).live (λ k.
    has-unsubscribe_each b.subscriptions k (unsubscribe_attention b.attention_subscription b)
    ∙ let e = has-unsubscribe_attention b.attention_subscription k b in
      let tracked = h k in ground arith)

pub unsubscribe_all-IsTracked : (b : Backend) → IsTracked b → IsTracked (unsubscribe_all b)
unfolding IsTracked
unsubscribe_all-IsTracked b h k there =
    absurd (let e = unsubscribe_all-clears b h in let none_left = ap (has k) e in ground arith)

has-append : (k i : ℕ) (xs : List ℕ) → has k (xs ++ i ∷ []) ≡ has k xs || (i == k)
has-append k i [] = ground arith
has-append k i (x ∷ xs) = ground (arith, has-append k i xs)

pub if-IsTracked :
    (c : Bool) (x y : Backend)
    → (c ≡ true → IsTracked x)
    → (c ≡ false → IsTracked y)
    → IsTracked (if c then x else y)
if-IsTracked true x y h h' = h refl
if-IsTracked false x y h h' = h' refl

no_attention :
    (o : Option ℕ) (k n : ℕ) (live subs : List ℕ)
    → is_some o ≡ false
    → (n == k) || has k live ≡ true
    → (has k live ≡ true → is_attention k o || has k subs ≡ true)
    → (n == k) || has k subs ≡ true
no_attention none k n live subs e there old = ground arith
no_attention (some i) k n live subs e there old = absurd (ground arith)

subscribe_for_attention-IsTracked :
    (b : Backend) → IsTracked b → IsTracked (subscribe_for_attention b)
unfolding subscribe_for_attention IsTracked
subscribe_for_attention-IsTracked b h =
    if-IsTracked (is_some b.attention_subscription) b
      (record b {
        attention_subscription = some b.next_id;
        live = b.next_id ∷ b.live;
        next_id = suc b.next_id;
      })
      (λ e. h) (λ e. added b e h)
  where
    added :
        (b : Backend)
        → is_some b.attention_subscription ≡ false
        → IsTracked b
        → IsTracked (record b {
          attention_subscription = some b.next_id;
          live = b.next_id ∷ b.live;
          next_id = suc b.next_id;
        })
    added b e h = λ k there.
        let old = h k in
        no_attention b.attention_subscription k b.next_id b.live b.subscriptions e there old

subscribe_for_events-IsTracked : (b : Backend) → IsTracked b → IsTracked (subscribe_for_events b)
unfolding subscribe_for_events IsTracked
subscribe_for_events-IsTracked b h k there =
    let old = h k in let more = has-append k b.next_id b.subscriptions in ground arith

pub start_watch-IsTracked : (b : Backend) → IsTracked b → IsTracked (start_watch b)
unfolding start_watch IsTracked
start_watch-IsTracked b h =
    if-IsTracked b.watch b
      (record (subscribe_for_attention (record b { bound = true })) { watch = true }) (λ e. h)
      (λ e. subscribe_for_attention-IsTracked (record b { bound = true }) h)

pub stop_watch-IsTracked : (b : Backend) → IsTracked b → IsTracked (stop_watch b)
unfolding stop_watch IsTracked
stop_watch-IsTracked b h =
    if-IsTracked b.watch (record (unsubscribe_all b) { watch = false }) b
      (λ e. unsubscribe_all-IsTracked b h) (λ e. h)

pub try_to_connect-IsTracked :
    (o : Outside) (path : Text) (b : Backend) → IsTracked b → IsTracked (try_to_connect o path b)
unfolding try_to_connect IsTracked
try_to_connect-IsTracked o path b h =
    if-IsTracked (not b.bound) b
      (if o.is_ready_to_connect path
        then log (connect_vpn path) (subscribe_for_events (log (log_forward path) b))
        else b)
      (λ e. h)
      (λ e.
        if-IsTracked (o.is_ready_to_connect path)
          (log (connect_vpn path) (subscribe_for_events (log (log_forward path) b))) b
          (λ e'. subscribe_for_events-IsTracked (log (log_forward path) b) h) (λ e'. h))

answer-IsTracked :
    (o : Outside) (a : Attention) (b : Backend) → IsTracked b → IsTracked (answer o a b)
unfolding answer IsTracked
answer-IsTracked o a b h = ground arith

answer_all-IsTracked :
    (o : Outside) (asked : List Attention) (b : Backend)
    → IsTracked b
    → IsTracked (answer_all o asked b)
unfolding answer_all
answer_all-IsTracked o [] b h = h
answer_all-IsTracked o (a ∷ more) b h =
    answer_all-IsTracked o more (answer o a b) (answer-IsTracked o a b h)

pub attention-IsTracked :
    (o : Outside) (path : Option Text) (b : Backend)
    → IsTracked b
    → IsTracked (attention_in o path b)
unfolding attention_in IsTracked
attention-IsTracked o none b h = h
attention-IsTracked o (some path) b h =
    try_to_connect-IsTracked o path
      (log (set_dco o.openvpn3_dco) (answer_all o (get_attention o path) b))
      (answer_all-IsTracked o (get_attention o path) b h)

pub disconnect-IsTracked :
    (path : Option Text) (b : Backend) → IsTracked b → IsTracked (disconnect_session path b)
unfolding disconnect_session IsTracked
disconnect-IsTracked none b h = h
disconnect-IsTracked (some path) b h = h

pub status-IsTracked :
    (m : StatusMinor) (reason : Text) (b : Backend)
    → IsTracked b
    → IsTracked (sub_status_signal m reason b)
unfolding sub_status_signal disconnect IsTracked
status-IsTracked conn_auth_failed reason b h =
    let b' = log (callback (flag false) (some reason)) b in
    if-IsTracked b.bound (disconnect (unsubscribe_all b')) (unsubscribe_all b')
      (λ e.
        disconnect-IsTracked (unsubscribe_all b').session_path (unsubscribe_all b')
          (unsubscribe_all-IsTracked b' h))
      (λ e. unsubscribe_all-IsTracked b' h)
status-IsTracked conn_connecting reason b h = h
status-IsTracked conn_connected reason b h = h
status-IsTracked conn_disconnected reason b h = unsubscribe_all-IsTracked b h
status-IsTracked conn_paused reason b h = h
status-IsTracked conn_resuming reason b h = h
status-IsTracked other_status reason b h = h
