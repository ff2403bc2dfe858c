-- ===== src/Raw/Direct.antt =====
-- Over a pseudo-tty, console_write writes from `consoleToLocal`, the queue of the other direction.
use mathlib.Core.List.{append_assoc, append-nil}
use libvirt_sandbox.Base.{
  ◌≡◌, refl, sym, ap, subst, ◌∙◌, true, false, Bool, Bool-cases, List, [], ◌∷◌, ◌++◌, Bytes, length,
  take, sub64, ◌⊎◌, inl, inr, map, if◌then◌else◌,
}
use libvirt_sandbox.Result.{Result, Error, Leaves-cases, ok, err, fault, ◌>>=◌}
use libvirt_sandbox.Console.Terminal.{Terminal}
use libvirt_sandbox.Console.Io.{Departure, taken}
use libvirt_sandbox.Console.Local.{Input, got, read_failed}
use libvirt_sandbox.Raw.{Raw}
use libvirt_sandbox.Raw.Events.{update_events}
use libvirt_sandbox.Raw.Terminal.{stop_term, left_of, detach, close, dropped}
use libvirt_sandbox.Raw.Io.{
  local_read, local_write, console_read, console_write, starts_escape, ends,
}
use libvirt_sandbox.Raw.Step.{
  RawEvent, detached, local_in, local_out, console_in, console_out, raw_step, raw_run,
}
use libvirt_sandbox.Raw.Bounds.{raw_step-Bounded}
use libvirt_sandbox.Raw.Bounded.{Bounded, update_events-queues}

-- What happens to a console over a pseudo-tty that is attached.
pub data DirectEvent : Type 0 where
  detaches : DirectEvent
  local_reads console_reads : Input → DirectEvent
  local_writes console_writes : Departure → DirectEvent

abbrev pub raw_event : DirectEvent → RawEvent
raw_event detaches = detached
raw_event (local_reads i) = local_in i
raw_event (console_reads i) = console_in i
raw_event (local_writes d) = local_out d
raw_event (console_writes d) = console_out d

abbrev pub event : Terminal × DirectEvent → Terminal × RawEvent
event (t, e) = (t, raw_event e)

-- The bytes `pre` are still queued for the console, or it is detached.
abbrev pub Unsent : Bytes → Bytes → Bool → Type 0
Unsent pre queue attached = ((more : Bytes) × (queue ≡ pre ++ more)) ⊎ (attached ≡ false)

abbrev pub StillQueued : Bytes → Raw → Type 0
StillQueued pre r = Unsent pre r.to_console r.attached

-- A result that is no fault, or is one.
abbrev pub LeavesIf : (Raw → Type 0) → Result Raw → Type 0
LeavesIf P (ok r) = P r
LeavesIf P (err e r) = P r
LeavesIf P fault = Unit {0}

update_events_queued :
    (pre : Bytes) (r : Raw) → StillQueued pre r → StillQueued pre (update_events r)
update_events_queued pre r v = subst (λ k. Unsent pre k.2 k.6) (sym (update_events-queues r)) v

stop_term_queued :
    (pre : Bytes) (t : Terminal) (b : Bool) (r : Raw)
    → StillQueued pre r
    → LeavesIf (StillQueued pre) (stop_term t b r)
unfolding stop_term
stop_term_queued pre t false r v = v
stop_term_queued pre t true r v = elim (Bool-cases t.is_tty) [
  | inr plain ↦ rw plain v
  | inl tty ↦ elim (Bool-cases t.update_succeeds) [ inl u ↦ rw (tty, u) v | inr u ↦ rw (tty, u) v ]
]

if_queued :
    (P : Raw → Type 0) (b : Bool) (m n : Result Raw)
    → LeavesIf P m
    → LeavesIf P n
    → LeavesIf P (if b then m else n)
if_queued P true m n v w = v
if_queued P false m n v w = w

dropped_queued :
    (pre : Bytes) (m : Result Raw)
    → LeavesIf (StillQueued pre) m
    → LeavesIf (StillQueued pre) (m >>= λ r'. ok (dropped r'))
dropped_queued pre (ok r) v = inr refl
dropped_queued pre (err e r) v = v
dropped_queued pre fault v = tt

detach_queued :
    (pre : Bytes) (t : Terminal) (r : Raw)
    → StillQueued pre r
    → LeavesIf (StillQueued pre) (detach t r)
unfolding detach
detach_queued pre t r v =
    if_queued (StillQueued pre) r.attached _ (ok r)
      (dropped_queued pre (stop_term t r.local_stdin r) (stop_term_queued pre t r.local_stdin r v))
      v

left_queued :
    (pre : Bytes) (r : Raw) (m : Result Raw)
    → StillQueued pre r
    → LeavesIf (StillQueued pre) m
    → StillQueued pre (left_of r m)
left_queued pre r (ok r') v w = w
left_queued pre r (err e r') v w = w
left_queued pre r fault v w = v

close_queued :
    (pre : Bytes) (t : Terminal) (b : Bool) (r : Raw)
    → StillQueued pre r
    → StillQueued pre (close t b r)
unfolding close
close_queued pre t b r v = left_queued pre r (detach t r) v (detach_queued pre t r v)

grown :
    (pre queue new : Bytes) (attached : Bool)
    → Unsent pre queue attached
    → Unsent pre (queue ++ new) attached
grown pre queue new attached (inl (more, e)) =
    inl (more ++ new, ap (λ q. q ++ new) e ∙ append_assoc pre more new)
grown pre queue new attached (inr gone) = inr gone

event_queued :
    (pre : Bytes) (t : Terminal) (e : DirectEvent) (r : Raw)
    → StillQueued pre r
    → LeavesIf (StillQueued pre) (raw_step t (raw_event e) r)
unfolding raw_step local_read local_write console_read console_write
event_queued pre t detaches r v = detach_queued pre t r v
event_queued pre t (local_reads read_failed) r v = close_queued pre t true r v
event_queued pre t (local_reads (got bytes)) r v =
    let new = take (sub64 r.to_console_length (length r.to_console)) bytes in
    if_queued (StillQueued pre) _ _ fault
      (if_queued (StillQueued pre) (starts_escape r.escape new) _ _ (close_queued pre t false r v)
        (update_events_queued pre _ (grown pre r.to_console new r.attached v)))
      tt
event_queued pre t (console_reads read_failed) r v = close_queued pre t true r v
event_queued pre t (console_reads (got bytes)) r v =
    let new = take (sub64 r.to_local_length (length r.to_local)) bytes in
    let closed = close_queued pre t false r v in
    if_queued (StillQueued pre) _ _ fault
      (if_queued (StillQueued pre) (ends new false) _ _ closed (
        if_queued (StillQueued pre) (starts_escape r.escape new) _ _ closed
          (update_events_queued pre _ v)))
      tt
event_queued pre t (local_writes Departure.failed) r v = close_queued pre t true r v
event_queued pre t (local_writes (taken n)) r v = update_events_queued pre _ v
event_queued pre t (console_writes Departure.failed) r v = close_queued pre t true r v
event_queued pre t (console_writes (taken n)) r v = update_events_queued pre _ v

step_ok :
    (t : Terminal) (e : RawEvent) (events : List (Terminal × RawEvent)) (r r1 : Raw)
    → raw_step t e r ≡ ok r1
    → raw_run ((t, e) ∷ events) r ≡ raw_run events r1
unfolding raw_run
step_ok t e events r r1 s = rw (s, raw_run) refl

step_err :
    (t : Terminal) (e : RawEvent) (events : List (Terminal × RawEvent)) (r r1 : Raw) (x : Error)
    → raw_step t e r ≡ err x r1
    → raw_run ((t, e) ∷ events) r ≡ raw_run events r1
unfolding raw_run
step_err t e events r r1 x s = rw (s, raw_run) refl

run_queued :
    (pre : Bytes) (events : List (Terminal × DirectEvent)) (r : Raw)
    → Bounded r
    → StillQueued pre r
    → (r' : Raw) × (raw_run (map event events) r ≡ ok r') × StillQueued pre r'
unfolding raw_run
run_queued pre [] r b v = (r, refl, v)
run_queued pre ((t, e) ∷ events) r b v =
    let ev = raw_event e in
    let q = event_queued pre t e r v in
    elim (Leaves-cases (raw_step t ev r) (raw_step-Bounded t ev r b)) [
      | inl (r1, s, b1) ↦
          let (r', run, v') =
            run_queued pre events r1 b1 (subst (LeavesIf (StillQueued pre)) s q) in
          (r', step_ok t ev (map event events) r r1 s ∙ run, v')
      | inr (x, r1, s, b1) ↦
          let (r', run, v') =
            run_queued pre events r1 b1 (subst (LeavesIf (StillQueued pre)) s q) in
          (r', step_err t ev (map event events) r r1 x s ∙ run, v')
    ]

-- While the console is attached over a pseudo-tty, what was read from the local stdin and queued
-- for the console stays queued, in front of what is read later, through any reads and writes of
-- both sides, until the console is detached.
pub stdin_never_sent :
    (events : List (Terminal × DirectEvent)) (r : Raw)
    → Bounded r
    → (r' : Raw) × (raw_run (map event events) r ≡ ok r')
      × (((more : Bytes) × (r'.to_console ≡ r.to_console ++ more)) ⊎ (r'.attached ≡ false))
stdin_never_sent events r b =
    run_queued r.to_console events r b (inl ([], sym (append-nil r.to_console)))
