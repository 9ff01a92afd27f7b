-- ===== src/Backend/Worker/Order.antt =====
-- Native operations are run in the order of their requests, and none is lost.
use mathlib.Core.List.{append_assoc, append-nil}
use e_ovpn_pro.Base.{
  true, not, ◌&&◌, Option, none, some, List, [], ◌∷◌, ◌++◌, is_some, ◌≡◌, refl, sym, ap, ◌∙◌, arith,
  Bool-cases, inl, inr, ◌⊎◌,
}
use e_ovpn_pro.Backend.Worker.{
  Operation, Worker, dispatch_off_ui_thread, take_next, idle_worker, begin_round, end_round,
  cancel_current_operation, start_watch, stop_watch, Move, dispatches, begins, ends, cancels,
  watches, unwatches, move, moves,
}

-- the operations that the moves ask for
abbrev pub requested : List Move → List Operation
requested [] = []
requested (dispatches op ∷ ms) = op ∷ requested ms
requested (_ ∷ ms) = requested ms

abbrev pub NoCancel : List Move → Type 0
NoCancel [] = Unit
NoCancel (cancels ∷ ms) = ⊥
NoCancel (_ ∷ ms) = NoCancel ms

-- what has been begun, and what waits, in this order
abbrev pub accepted : Worker → List Operation
accepted s = s.started ++ s.operation_queue

take-accepted :
    (queue : List Operation) (s : Worker)
    → s.operation_queue ≡ queue
    → accepted (take_next queue s) ≡ s.started ++ queue
unfolding take_next
take-accepted [] s h = ap (λ (q : List Operation). s.started ++ q) h
take-accepted (op ∷ queue) s h = append_assoc s.started (op ∷ []) queue

begin-accepted : (s : Worker) → accepted (begin_round s) ≡ accepted s
unfolding begin_round
begin-accepted s = elim (Bool-cases (s.alive && not (is_some s.running))) [
  | inl e ↦ rw e (take-accepted s.operation_queue s refl)
  | inr e ↦ rw e refl
]

-- Unless an operation is cancelled, those that were begun and those that wait are the earlier ones
-- followed by the requested ones: none is lost, repeated or overtaken.
pub accepted-moves :
    (ms : List Move) (s : Worker) → NoCancel ms → accepted (moves ms s) ≡ accepted s ++ requested ms
unfolding moves move dispatch_off_ui_thread end_round start_watch stop_watch
accepted-moves [] s h = sym (append-nil (accepted s))
accepted-moves (dispatches op ∷ ms) s h =
    accepted-moves ms (dispatch_off_ui_thread op s) h
    ∙ ap (λ (x : List Operation). x ++ requested ms)
        (sym (append_assoc s.started s.operation_queue (op ∷ [])))
    ∙ append_assoc (accepted s) (op ∷ []) (requested ms)
accepted-moves (begins ∷ ms) s h =
    accepted-moves ms (begin_round s) h
    ∙ ap (λ (x : List Operation). x ++ requested ms) (begin-accepted s)
accepted-moves (ends ∷ ms) s h = accepted-moves ms (end_round s) h
accepted-moves (cancels ∷ ms) s h = elim h [ ]
accepted-moves (watches ∷ ms) s h = accepted-moves ms (start_watch s) h
accepted-moves (unwatches ∷ ms) s h = accepted-moves ms (stop_watch s) h

-- where something waits or runs, the thread is alive
abbrev pub IsServed : Worker → Type 0
IsServed s = (s.alive ≡ true) ⊎ ((s.operation_queue ≡ []) × (s.running ≡ none))

take-IsServed :
    (queue : List Operation) (s : Worker)
    → s.operation_queue ≡ queue
    → s.running ≡ none
    → s.alive ≡ true
    → IsServed (take_next queue s)
unfolding take_next
take-IsServed [] s h r a = inr (h, r)
take-IsServed (op ∷ queue) s h r a = inl a

none_of : (o : Option Operation) → not (is_some o) ≡ true → o ≡ none
none_of none h = refl
none_of (some op) h = cc

begin-IsServed : (s : Worker) → IsServed s → IsServed (begin_round s)
unfolding begin_round
begin-IsServed s h = elim (Bool-cases (s.alive && not (is_some s.running))) [
  | inl e ↦
      rw e
        (take-IsServed s.operation_queue s refl (none_of s.running (ground arith)) (ground arith))
  | inr e ↦ rw e h
]

move-IsServed : (m : Move) (s : Worker) → IsServed s → IsServed (move m s)
unfolding move dispatch_off_ui_thread end_round cancel_current_operation start_watch stop_watch
move-IsServed (dispatches op) s h = inl refl
move-IsServed begins s h = begin-IsServed s h
move-IsServed ends s (inl a) = inl a
move-IsServed ends s (inr (q, r)) = inr (q, refl)
move-IsServed cancels s (inl a) = inl a
move-IsServed cancels s (inr (q, r)) = inr (refl, r)
move-IsServed watches s h = h
move-IsServed unwatches s h = h

moves-IsServed : (ms : List Move) (s : Worker) → IsServed s → IsServed (moves ms s)
unfolding moves
moves-IsServed [] s h = h
moves-IsServed (m ∷ ms) s h = moves-IsServed ms (move m s) (move-IsServed m s h)

-- the thread left to itself, until nothing waits: it begins and ends each operation
abbrev pub drain : List Operation → List Move
drain [] = []
drain (op ∷ queue) = begins ∷ ends ∷ drain queue

-- a round of the thread
round-fields :
    (op : Operation) (queue : List Operation) (s : Worker)
    → s.operation_queue ≡ op ∷ queue
    → s.running ≡ none
    → s.alive ≡ true
    → ((end_round (begin_round s)).operation_queue ≡ queue)
      × ((end_round (begin_round s)).running ≡ none)
      × ((end_round (begin_round s)).alive ≡ true)
      × ((end_round (begin_round s)).started ≡ s.started ++ op ∷ [])
unfolding begin_round end_round take_next
round-fields op queue s h r a = (ground arith, refl, ground arith, ground arith)

drain-started :
    (queue : List Operation) (s : Worker)
    → s.operation_queue ≡ queue
    → s.running ≡ none
    → s.alive ≡ true
    → ((moves (drain queue) s).operation_queue ≡ [])
      × ((moves (drain queue) s).started ≡ s.started ++ queue)
unfolding moves move
drain-started [] s h r a = (h, sym (append-nil s.started))
drain-started (op ∷ queue) s h r a =
    let (q, n, b, t) = round-fields op queue s h r a in
    let later = drain-started queue (end_round (begin_round s)) q n b in
    (
      later.0,
      later.1 ∙ ap (λ (x : List Operation). x ++ queue) t ∙ append_assoc s.started (op ∷ []) queue,
    )

nothing-started :
    (queue : List Operation) (s : Worker)
    → s.operation_queue ≡ queue
    → queue ≡ []
    → ((moves (drain queue) s).operation_queue ≡ [])
      × ((moves (drain queue) s).started ≡ s.started ++ queue)
unfolding moves
nothing-started [] s h e = (h, sym (append-nil s.started))
nothing-started (op ∷ queue) s h e = absurd (cc)

-- left to itself after any moves, the thread empties its queue
drained :
    (ms : List Move)
    → let s = end_round (moves ms idle_worker) in
      ((moves (drain s.operation_queue) s).operation_queue ≡ [])
      × ((moves (drain s.operation_queue) s).started ≡ accepted (moves ms idle_worker))
unfolding end_round
drained ms =
    let s = moves ms idle_worker in
    elim (moves-IsServed ms idle_worker (inr (refl, refl))) [
      | inl a ↦ drain-started s.operation_queue (end_round s) refl refl a
      | inr (q, r) ↦ nothing-started s.operation_queue (end_round s) refl q
    ]

moves-append : (xs ys : List Move) (s : Worker) → moves (xs ++ ys) s ≡ moves ys (moves xs s)
unfolding moves
moves-append [] ys s = refl
moves-append (x ∷ xs) ys s = moves-append xs ys (move x s)

-- Whatever was requested, begun, cancelled and watched before: where no operation is cancelled from
-- then on, and the thread is left to itself in the end, what it has begun in all is what it had
-- begun before, then what waited then, then every operation that has been requested since, each
-- once and in the order of the requests; and none is left.
pub waiting_operations_run :
    (before later : List Move)
    → NoCancel later
    → let s = end_round (moves (before ++ later) idle_worker) in
      let end = moves (drain s.operation_queue) s in
      (end.operation_queue ≡ [])
      × (end.started
          ≡ ((moves before idle_worker).started ++ (moves before idle_worker).operation_queue)
            ++ requested later)
waiting_operations_run before later h =
    let (empty, begun) = drained (before ++ later) in
    (
      empty,
      begun
          ∙ ap accepted (moves-append before later idle_worker)
          ∙ accepted-moves later (moves before idle_worker) h,
    )

-- An operation that waited when the current one was cancelled is never begun: from then on only
-- those that are requested later are.
pub cancelled_are_dropped :
    (ms : List Move) (s : Worker)
    → NoCancel ms
    → accepted (moves (cancels ∷ ms) s) ≡ s.started ++ requested ms
unfolding moves move cancel_current_operation
cancelled_are_dropped ms s h =
    accepted-moves ms (cancel_current_operation s) h
    ∙ ap (λ (x : List Operation). x ++ requested ms) (append-nil s.started)
