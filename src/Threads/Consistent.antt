-- ===== src/Threads/Consistent.antt =====
-- What holds between the sections of the threads of src/main.cpp, and the sections of the handlers.
use sandrun.Common.{
  ℕ, ◌≤◌, true, false, ◌&&◌, ◌||◌, List, [], ◌∷◌, ◌++◌, ◌≡◌, ◌≢◌, refl, arith, none, some, Bytes,
  bytes_eq, bytes_eq_iff, lookup, insert, contains, bytes_key, lookup-insert,
}
use sandrun.RateLimiter.{States}
use sandrun.RateLimiter.Active.{is_active}
use sandrun.Jobs.{Job, generate_job_id}
use sandrun.Threads.{System, ran, start, is_some, at_executor, in_flight, owns}
use sandrun.Threads.Known.{AllKnown, insert-AllKnown}

abbrev pub IsDistinct : List Bytes → Type 0
IsDistinct [] = Unit
IsDistinct (id ∷ ids) = (contains id ids ≡ false) × IsDistinct ids

pub contains-append :
    (id new : Bytes) (ids : List Bytes)
    → contains id (ids ++ new ∷ []) ≡ (contains id ids || bytes_eq new id)
unfolding contains
contains-append id new [] = ground arith
contains-append id new (i ∷ ids) = ground (arith, contains-append id new ids)

pub append-IsDistinct :
    (new : Bytes) (ids : List Bytes)
    → IsDistinct ids
    → contains new ids ≡ false
    → IsDistinct (ids ++ new ∷ [])
unfolding contains
append-IsDistinct new [] h gone = (refl, tt)
append-IsDistinct new (i ∷ ids) h gone = (
  ground (arith, contains-append i new ids, bytes_eq_iff i new, bytes_eq_iff new i),
  append-IsDistinct new ids h.1 (ground arith),
)

module _ {F : Type 0} where
  -- The active jobs of an address are its jobs on their way; a job is on its way in one place; the
  -- jobs in the map and at the handlers are those of the address that was admitted; and the ids
  -- that will be made are new.
  pub record IsConsistent (s : System F) : Type 0 where
    pub slots :
        (ip id : Bytes)
        → is_active ip id s.server.limiter ≡ (in_flight id s && owns ip (lookup id s.owners))
    pub known : AllKnown s.owners s.server.jobs
    pub distinct : IsDistinct s.server.job_queue
    pub apart_registered :
        (id : Bytes)
        → is_some (lookup id s.registered) ≡ true
        → contains id s.server.job_queue || at_executor id s.executor ≡ false
    pub apart_waiting :
        (id : Bytes) → contains id s.server.job_queue ≡ true → at_executor id s.executor ≡ false
    pub known_registered :
        (id : Bytes) (job : Job F)
        → lookup id s.registered ≡ some job
        → lookup id s.owners ≡ some job.client_ip
    pub known_ran :
        (id ip : Bytes) (cpu_seconds : F)
        → s.executor ≡ ran id ip cpu_seconds
        → lookup id s.owners ≡ some ip
    pub owned : (id : Bytes) → in_flight id s ≡ true → is_some (lookup id s.owners) ≡ true
    pub fresh :
        (seconds counter : ℕ)
        → s.counter ≤ counter
        → lookup (generate_job_id seconds counter).0 s.owners ≡ none

  pub start-IsConsistent : IsConsistent start
  unfolding lookup contains
  start-IsConsistent = record {
    slots = λ ip id. refl;
    known = tt;
    distinct = tt;
    apart_registered = λ id h. refl;
    apart_waiting = λ id h. refl;
    known_registered = λ id job h. cc;
    known_ran = λ id ip cpu_seconds h. cc;
    owned = λ id h. cc;
    fresh = λ seconds counter h. refl;
  }

  -- The calls that leave the active jobs as they are.
  pub limiter-IsConsistent :
      (s : System F) (limiter : States F) (counter : ℕ)
      → IsConsistent s
      → ((ip id : Bytes) → is_active ip id limiter ≡ is_active ip id s.server.limiter)
      → s.counter ≤ counter
      → IsConsistent
          (record s { server = record s.server { limiter = limiter }; counter = counter })
  limiter-IsConsistent s limiter counter h same later = record {
    slots = λ ip id. ground (arith, h.slots ip id, same ip id);
    known = h.known;
    distinct = h.distinct;
    apart_registered = h.apart_registered;
    apart_waiting = h.apart_waiting;
    known_registered = h.known_registered;
    known_ran = h.known_ran;
    owned = h.owned;
    fresh = λ seconds c le. h.fresh seconds c (omega arith);
  }

  -- A new id takes a slot.
  pub admit-IsConsistent :
      (s : System F) (id : Bytes) (job : Job F) (limiter : States F) (counter : ℕ)
      → IsConsistent s
      → lookup id s.owners ≡ none
      → ((ip i : Bytes)
          → is_active ip i limiter
            ≡ (is_active ip i s.server.limiter || (bytes_eq job.client_ip ip && bytes_eq id i)))
      → s.counter ≤ counter
      → ((seconds c : ℕ) → counter ≤ c → (generate_job_id seconds c).0 ≢ id)
      → IsConsistent (record s {
        server = record s.server { limiter = limiter };
        counter = counter;
        registered = insert id (record job { job_id = id }) s.registered;
        owners = insert id job.client_ip s.owners;
      })
  admit-IsConsistent s id job limiter counter h new active later others = record {
    slots = λ ip i. ground (
      arith,
      h.slots ip i,
      active ip i,
      lookup-insert id i (record job { job_id = id }) s.registered,
      lookup-insert id i job.client_ip s.owners,
      bytes_eq_iff id i,
      h.owned i,
    );
    known = insert-AllKnown id job.client_ip s.owners s.server.jobs new h.known;
    distinct = h.distinct;
    apart_registered = λ i e. ground (
      arith,
      lookup-insert id i (record job { job_id = id }) s.registered,
      bytes_eq_iff id i,
      h.apart_registered i,
      h.owned i,
    );
    apart_waiting = h.apart_waiting;
    known_registered = λ i j e. ground (
      arith,
      lookup-insert id i (record job { job_id = id }) s.registered,
      lookup-insert id i job.client_ip s.owners,
      h.known_registered i j,
    );
    known_ran = λ i ip cpu e. ground (
      arith,
      lookup-insert id i job.client_ip s.owners,
      bytes_eq_iff id i,
      h.known_ran i ip cpu e,
    );
    owned = λ i e. ground (
      arith,
      lookup-insert id i (record job { job_id = id }) s.registered,
      lookup-insert id i job.client_ip s.owners,
      h.owned i,
    );
    fresh = λ seconds c le.
        let made = (generate_job_id seconds c).0 in
        ground (
          arith,
          lookup-insert id made job.client_ip s.owners,
          bytes_eq_iff id made,
          others seconds c le,
          h.fresh seconds c,
        );
  }
