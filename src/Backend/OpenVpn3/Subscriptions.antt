-- ===== src/Backend/OpenVpn3/Subscriptions.antt =====
-- The subscriptions of eovpn/backend/openvpn3/dbus.py.
use e_ovpn_pro.Base.{
  ℕ, Bool, true, false, Option, none, some, List, [], ◌∷◌, Text, if◌then◌else◌, ◌≡◌, refl, sym, ap,
  ◌∙◌, arith,
}
use e_ovpn_pro.Events.{flag}
use e_ovpn_pro.Download.Extract.{basename}
use e_ovpn_pro.Backend.OpenVpn3.{
  log, callback, send_auth, new_backend, Backend, Outside, Attention, StatusMinor, unsubscribe,
  unsubscribe_each, unsubscribe_attention, unsubscribe_all, subscribe_for_attention, start_watch,
  stop_watch, disconnect, pause, resume, connect, prepared, attention_in, sub_attention_signal,
  send_otp, sub_status_signal, conn_disconnected,
}
use e_ovpn_pro.Backend.OpenVpn3.Tracking.{
  IsTracked, unsubscribe_all-clears, start_watch-IsTracked, stop_watch-IsTracked, if-IsTracked,
  try_to_connect-IsTracked, attention-IsTracked, disconnect-IsTracked, status-IsTracked,
}

-- What may happen to a backend, one after the other.
pub data Move : Type 0 where
  watches unwatches attends disconnects pauses resumes : Move
  status : StatusMinor → Text → Move
  connects : Text → Text → List Text → Move
  answers : Attention → Text → Move

module _ (o : Outside) where
  unfoldable pub move : Move → Backend → Backend
  move watches b = start_watch b
  move unwatches b = stop_watch b
  move attends b = sub_attention_signal o b
  move disconnects b = disconnect b
  move pauses b = pause b
  move resumes b = resume b
  move (status m reason) b = sub_status_signal m reason b
  move (connects config content suspicious) b = connect o config content suspicious b
  move (answers challenge otp) b = send_otp o challenge otp b.session_path b

  unfoldable pub moves : List Move → Backend → Backend
  unfolding move
  moves [] b = b
  moves (m ∷ ms) b = moves ms (move m b)

  connect-IsTracked :
      (config content : Text) (suspicious : List Text) (b : Backend)
      → IsTracked b
      → IsTracked (connect o config content suspicious b)
  unfolding connect IsTracked
  connect-IsTracked config content (x ∷ xs) b h = h
  connect-IsTracked config content [] b h = tracked (o.import_config (basename config) content)
    where
      tracked : (c : Option Text) → IsTracked (prepared o c b)
      tracked none = h
      tracked (some []) = h
      tracked (some (c ∷ config)) = h

  otp-IsTracked :
      (challenge : Attention) (otp : Text) (path : Option Text) (b : Backend)
      → IsTracked b
      → IsTracked (send_otp o challenge otp path b)
  unfolding send_otp IsTracked
  otp-IsTracked challenge otp none b h = h
  otp-IsTracked challenge otp (some path) b h =
      try_to_connect-IsTracked o path (log (send_auth challenge otp) b) h

  move-IsTracked : (m : Move) (b : Backend) → IsTracked b → IsTracked (move m b)
  unfolding move sub_attention_signal pause resume disconnect IsTracked
  move-IsTracked watches b h = start_watch-IsTracked b h
  move-IsTracked unwatches b h = stop_watch-IsTracked b h
  move-IsTracked attends b h =
      if-IsTracked b.bound (attention_in o b.session_path b) b
        (λ e. attention-IsTracked o b.session_path b h) (λ e. h)
  move-IsTracked disconnects b h = disconnect-IsTracked b.session_path b h
  move-IsTracked pauses b h = h
  move-IsTracked resumes b h = h
  move-IsTracked (status m reason) b h = status-IsTracked m reason b h
  move-IsTracked (connects config content suspicious) b h =
      connect-IsTracked config content suspicious b h
  move-IsTracked (answers challenge otp) b h = otp-IsTracked challenge otp b.session_path b h

  moves-IsTracked : (ms : List Move) (b : Backend) → IsTracked b → IsTracked (moves ms b)
  unfolding moves
  moves-IsTracked [] b h = h
  moves-IsTracked (m ∷ ms) b h = moves-IsTracked ms (move m b) (move-IsTracked m b h)

  -- Whatever a new backend has been through, the end of a connection leaves none of its
  -- subscriptions on the bus: neither the one for attention nor any for status changes.
  pub no_stale_subscriptions :
      (ms : List Move) → (sub_status_signal conn_disconnected [] (moves ms new_backend)).live ≡ []
  unfolding sub_status_signal
  no_stale_subscriptions ms =
      unsubscribe_all-clears (moves ms new_backend)
        (moves-IsTracked ms new_backend (unfold IsTracked in λ k there. absurd (ground arith)))

each_keeps :
    (is : List ℕ) (b : Backend)
    → ((unsubscribe_each is b).watch ≡ b.watch)
      × ((unsubscribe_each is b).attention_subscription ≡ b.attention_subscription)
unfolding unsubscribe_each unsubscribe
each_keeps [] b = (refl, refl)
each_keeps (i ∷ is) b = each_keeps is (unsubscribe i b)

attention_goes :
    (o : Option ℕ) (b : Backend)
    → o ≡ b.attention_subscription
    → ((unsubscribe_attention o b).watch ≡ b.watch)
      × ((unsubscribe_attention o b).attention_subscription ≡ none)
unfolding unsubscribe_attention unsubscribe
attention_goes none b h = (refl, sym h)
attention_goes (some i) b h = (refl, refl)

unsubscribe_all-keeps :
    (b : Backend)
    → ((unsubscribe_all b).watch ≡ b.watch) × ((unsubscribe_all b).attention_subscription ≡ none)
unfolding unsubscribe_all
unsubscribe_all-keeps b =
    let b' = unsubscribe_attention b.attention_subscription b in
    let (watch, attention) = attention_goes b.attention_subscription b refl in
    let (watch', attention') = each_keeps b.subscriptions b' in
    (watch' ∙ watch, attention' ∙ attention)

still_watching : (b : Backend) → b.watch ≡ true → start_watch b ≡ b
unfolding start_watch
still_watching b h =
    ap
      (λ (c : Bool).
        if c
        then b
        else record (subscribe_for_attention (record b { bound = true })) { watch = true })
      h

-- Once the connection of a watched backend has ended on its own, starting to watch again does
-- nothing: the backend has no subscription for attention, and, where it knew of all its
-- subscriptions, none at all is on the bus.
pub deaf_after_disconnection :
    (b : Backend) (reason : Text)
    → b.watch ≡ true
    → IsTracked b
    → ((start_watch (sub_status_signal conn_disconnected reason b)).attention_subscription ≡ none)
      × ((start_watch (sub_status_signal conn_disconnected reason b)).live ≡ [])
unfolding sub_status_signal
deaf_after_disconnection b reason w h =
    let told = log (callback (flag false) none) (unsubscribe_all b) in
    let (watch, attention) = unsubscribe_all-keeps b in
    let same_state = still_watching told (watch ∙ w) in
    (
      ap (λ s. s.attention_subscription) same_state ∙ attention,
      ap (λ s. s.live) same_state ∙ unsubscribe_all-clears b h,
    )
