-- ===== src/WebSocket/Broadcaster.antt =====
-- `OutputBroadcaster` of src/websocket.h and src/websocket.cpp, and `send_text` and `send_close`. A
-- write to a client is a parameter: the number of bytes that it takes, or none for an error. The
-- mutex makes each method one step.
use sandrun.Common.{
  ℕ, Bool, false, not, ◌&&◌, List, [], ◌∷◌, ◌++◌, ◌≡◌, refl, arith, Bytes, ◌==◌, length, Option,
  none, some, Map, lookup, insert, erase, value_or, contains, add, remove, select, if◌then◌else◌,
  bytes_key, nat_key, bytes_eq, lookup-insert, lookup-insert_self, lookup-erase_self, remove-add,
  Option-cases, inl, inr, contains-remove,
}
use sandrun.WebSocket.Frame.{create_frame, text, close}

pub record Broadcaster : Type 0 where
  pub subscribers : Map Bytes (List ℕ)
  pub accumulated_output : Map Bytes Bytes

abbrev pub no_jobs : Broadcaster
no_jobs = record { subscribers = []; accumulated_output = [] }

-- A write succeeds when it takes the whole frame.
wrote : Option ℕ → ℕ → Bool
wrote none size = false
wrote (some sent) size = sent == size

module _ (write : ℕ → Bytes → Option ℕ) where
  pub send_text : ℕ → Bytes → Bool
  unfolding wrote
  send_text client_fd text_message =
      let frame = create_frame text text_message in wrote (write client_fd frame) (length frame)

  pub send_close : ℕ → Bool
  unfolding wrote
  send_close client_fd =
      let frame = create_frame close [] in wrote (write client_fd frame) (length frame)

unfoldable pub subscribe : Bytes → ℕ → Broadcaster → Broadcaster
subscribe job_id client_fd b = record b {
  subscribers =
      insert job_id (add client_fd (value_or [] (lookup job_id b.subscribers))) b.subscribers;
}

-- The set of a job without a client; an empty set goes.
leave : Bytes → List ℕ → Map Bytes (List ℕ) → Map Bytes (List ℕ)
leave job_id [] m = erase job_id m
leave job_id (fd ∷ fds) m = insert job_id (fd ∷ fds) m

unfoldable pub unsubscribe : Bytes → ℕ → Broadcaster → Broadcaster
unfolding leave
unsubscribe job_id client_fd b = elim (lookup job_id b.subscribers) [
  | none ↦ b
  | some fds ↦ record b { subscribers = leave job_id (remove client_fd fds) b.subscribers }
]

-- The loop that erases the dead clients from a set.
remove_all : List ℕ → List ℕ → List ℕ
remove_all [] fds = fds
remove_all (fd ∷ dead) fds = remove_all dead (remove fd fds)

-- The broadcaster afterwards, and the descriptors that were closed. `sends fd` is what
-- `send_text(fd, message)` returns.
pub broadcast : (ℕ → Bool) → Bytes → Broadcaster → Broadcaster × List ℕ
unfolding remove_all
broadcast sends job_id b = elim (lookup job_id b.subscribers) [
  | none ↦ (b, [])
  | some fds ↦
      let dead = select (λ fd. not (sends fd)) fds in
      (record b { subscribers = insert job_id (remove_all dead fds) b.subscribers }, dead)
]

unfoldable pub get_accumulated_output : Bytes → Broadcaster → Bytes
get_accumulated_output job_id b = value_or [] (lookup job_id b.accumulated_output)

pub append_output : Bytes → Bytes → Broadcaster → Broadcaster
append_output job_id output b = record b {
  accumulated_output =
      insert job_id (value_or [] (lookup job_id b.accumulated_output) ++ output)
        b.accumulated_output;
}

pub clear_job : Bytes → Broadcaster → Broadcaster
clear_job job_id b = record {
  subscribers = erase job_id b.subscribers;
  accumulated_output = erase job_id b.accumulated_output;
}

-- The clients of a job.
abbrev pub members : Bytes → Broadcaster → List ℕ
members job_id b = value_or [] (lookup job_id b.subscribers)

contains-remove_all :
    (fd : ℕ) (dead fds : List ℕ)
    → contains fd (remove_all dead fds) ≡ (contains fd fds && not (contains fd dead))
unfolding remove_all contains
contains-remove_all fd [] fds = ground arith
contains-remove_all fd (d ∷ dead) fds =
    ground (arith, contains-remove_all fd dead (remove d fds), contains-remove d fd fds)

contains-select :
    (p : ℕ → Bool) (fd : ℕ) (fds : List ℕ) → contains fd (select p fds) ≡ (contains fd fds && p fd)
unfolding contains
contains-select p fd [] = refl
contains-select p fd (d ∷ fds) = ground (arith, contains-select p fd fds)

-- A broadcast closes exactly the job's clients that the message could not be sent to, and keeps
-- exactly the others.
pub broadcast-contains :
    (sends : ℕ → Bool) (job_id : Bytes) (b : Broadcaster) (fd : ℕ)
    → (contains fd (members job_id (broadcast sends job_id b).0)
        ≡ (contains fd (members job_id b) && sends fd))
      × (contains fd (broadcast sends job_id b).1
          ≡ (contains fd (members job_id b) && not (sends fd)))
unfolding broadcast
broadcast-contains sends job_id b fd = elim (Option-cases (lookup job_id b.subscribers)) [
  | inl e ↦ unfold contains in ground arith
  | inr (fds, e) ↦ ground (
    arith,
    lookup-insert_self job_id (remove_all (select (λ fd. not (sends fd)) fds) fds) b.subscribers,
    contains-remove_all fd (select (λ fd. not (sends fd)) fds) fds,
    contains-select (λ fd. not (sends fd)) fd fds,
  )
]

lookup-leave :
    (job_id : Bytes) (fds : List ℕ) (m : Map Bytes (List ℕ))
    → value_or [] (lookup job_id (leave job_id fds m)) ≡ fds
unfolding leave
lookup-leave job_id [] m = rw (lookup-erase_self job_id m)
lookup-leave job_id (fd ∷ fds) m = rw (lookup-insert_self job_id (fd ∷ fds) m)

-- A client that unsubscribes is no client of the job, and the others stay.
pub unsubscribe-contains :
    (job_id : Bytes) (fd other : ℕ) (b : Broadcaster)
    → contains other (members job_id (unsubscribe job_id fd b))
      ≡ (if fd == other then false else contains other (members job_id b))
unfolding unsubscribe
unsubscribe-contains job_id fd other b = elim (Option-cases (lookup job_id b.subscribers)) [
  | inl e ↦ unfold contains in ground arith
  | inr (fds, e) ↦
      ground
        (arith, lookup-leave job_id (remove fd fds) b.subscribers, contains-remove fd other fds)
]

-- A client that was not subscribed, and unsubscribes again, leaves the job's clients as they were.
unsubscribe-subscribe :
    (job_id : Bytes) (fd : ℕ) (b : Broadcaster)
    → contains fd (members job_id b) ≡ false
    → members job_id (unsubscribe job_id fd (subscribe job_id fd b)) ≡ members job_id b
unfolding subscribe unsubscribe
unsubscribe-subscribe job_id fd b h =
    let fds = members job_id b in
    let m = insert job_id (add fd fds) b.subscribers in
    ground (
      arith,
      lookup-insert_self job_id (add fd fds) b.subscribers,
      remove-add fd fds h,
      lookup-leave job_id fds m,
    )

-- Output that is appended stands behind what the job had, and other jobs keep theirs.
get_accumulated_output-append_output :
    (job_id other output : Bytes) (b : Broadcaster)
    → get_accumulated_output other (append_output job_id output b) ≡ (
        if bytes_eq job_id other
        then get_accumulated_output job_id b ++ output
        else get_accumulated_output other b)
unfolding get_accumulated_output append_output
get_accumulated_output-append_output job_id other output b = ground (
  arith,
  lookup-insert job_id other (value_or [] (lookup job_id b.accumulated_output) ++ output)
      b.accumulated_output,
)
