-- ===== src/Rpc/Once.antt =====
-- Every call ends once: over any order of calls, messages, timeouts and changes of the connection.
use pyxis.Prelude.{
  ℕ, ◌+◌, ◌^◌, ◌≤◌, ◌<◌, true, false, List, [], ◌∷◌, ◌++◌, none, some, ◌≡◌, refl, ap, ◌∙◌, arith,
  length, length-append, inl, inr, Option-cases,
}
use pyxis.Maps.{find, erase, insert_new}
use pyxis.Maps.Keys.{nat_key}
use pyxis.Maps.Ascending.{ascending, ascending-assign, ascending-erase}
use pyxis.Rpc.{
  Client, call_in_loop, on_connection, on_rpc_message, on_call_timeout, close, clear_calls,
  reset_all,
}
use pyxis.Rpc.Counts.{
  Input, react, run, made, waiting, ended, ended-append, below, below-assign, below-erase,
  below-suc, find-below, waiting-assign, waiting-erase, ended-reset_all, connection, call, message,
  closing, timeout,
}

-- The ids that wait ascend and are below the next one.
pub record IsClient (c : Client) : Type 0 where
  pub sorted : ascending c.pending ≡ true
  pub given : below c.xid c.pending ≡ true

-- One input keeps the invariant, loses no call and ends none twice.
pub record Counted (i : Input) (c : Client) : Type 0 where
  pub good : IsClient (react i c).client
  pub counts :
      (n : ℕ)
      → waiting n c.pending + made n (i ∷ [])
        ≡ waiting n (react i c).client.pending + ended n (react i c).done
  pub later : (react i c).client.xid ≤ c.xid + 1

erased : (x : ℕ) (c : Client) → IsClient c → IsClient (record c { pending = erase x c.pending })
erased x c v = record {
  sorted = ascending-erase x c.pending v.sorted;
  given = below-erase c.xid x c.pending v.given;
}

pub counted : (i : Input) (c : Client) → IsClient c → c.xid + 1 < 2 ^ 64 → Counted i c
unfolding react made ended waiting call_in_loop insert_new on_rpc_message on_call_timeout
    on_connection close clear_calls reset_all ascending below
counted (call m req) c v b =
    let absent : find c.xid c.pending ≡ none = find-below c.xid c.pending v.given in
    record {
      good = record {
        sorted = ground (arith, ascending-assign c.xid m c.pending v.sorted);
        given = ground (
          arith,
          below-assign (c.xid + 1) c.xid m c.pending,
          below-suc c.xid (c.xid + 1) c.pending,
        );
      };
      counts = λ n. ground (arith, waiting-assign n c.xid m c.pending absent);
      later = ground arith;
    }
counted (message rep) c v b =
    let x : ℕ = elim rep.xid [ none ↦ 0 | some x ↦ x ] in
    elim (Option-cases (find x c.pending)) [
      | inl h ↦ record {
        good = record { sorted = ground arith; given = ground arith };
        counts = λ n. ground arith;
        later = ground arith;
      }
      | inr (m, h) ↦ record {
        good = record {
          sorted = ground (arith, ascending-erase x c.pending v.sorted);
          given = ground (arith, below-erase c.xid x c.pending v.given);
        };
        counts = λ n. ground (arith, waiting-erase n x m c.pending v.sorted h);
        later = ground arith;
      }
    ]
counted (timeout x) c v b = elim (Option-cases (find x c.pending)) [
  | inl h ↦ record {
    good = record { sorted = ground arith; given = ground arith };
    counts = λ n. ground arith;
    later = ground arith;
  }
  | inr (m, h) ↦ record {
    good = record {
      sorted = ground (arith, ascending-erase x c.pending v.sorted);
      given = ground (arith, below-erase c.xid x c.pending v.given);
    };
    counts = λ n. ground (arith, waiting-erase n x m c.pending v.sorted h);
    later = ground arith;
  }
]
counted (connection true) c v b = record {
  good = record { sorted = v.sorted; given = v.given };
  counts = λ n. omega arith;
  later = omega arith;
}
counted (connection false) c v b = record {
  good = record { sorted = refl; given = refl };
  counts = λ n. ground (arith, ended-reset_all n c.pending);
  later = omega arith;
}
counted closing c v b = record {
  good = record { sorted = refl; given = refl };
  counts = λ n. ground (arith, ended-reset_all n c.pending);
  later = omega arith;
}

made-cons :
    (n : ℕ) (i : Input) (inputs : List Input)
    → made n (i ∷ inputs) ≡ made n (i ∷ []) + made n inputs
unfolding made
made-cons n (call m req) inputs = omega arith
made-cons n (message rep) inputs = omega arith
made-cons n (timeout x) inputs = omega arith
made-cons n (connection up) inputs = omega arith
made-cons n closing inputs = omega arith

-- Over any sequence of inputs during which the ids do not wrap, every call is accounted for: as often
-- as it waited before or was made, it waits behind the sequence or has ended, once each.
pub run_lem :
    (inputs : List Input) (c : Client)
    → IsClient c
    → c.xid + length inputs < 2 ^ 64
    → IsClient (run inputs c).0
      × ((n : ℕ)
          → waiting n c.pending + made n inputs
            ≡ waiting n (run inputs c).0.pending + ended n (run inputs c).1)
unfolding run ended made
run_lem [] c v b = (v, λ n. omega arith)
run_lem (i ∷ inputs) c v b =
    let one = counted i c v (omega arith) in
    let later : (react i c).client.xid ≤ c.xid + 1 = one.later in
    let (good, counts) = run_lem inputs (react i c).client one.good (omega (arith, later)) in
    (
      good,
      λ n. omega (
        arith,
        counts n,
        one.counts n,
        made-cons n i inputs,
        ended-append n (react i c).done (run inputs (react i c).client).1,
      ),
    )

run-last :
    (inputs : List Input) (i : Input) (c : Client)
    → (run (inputs ++ i ∷ []) c).0 ≡ (react i (run inputs c).0).client
unfolding run
run-last [] i c = refl
run-last (j ∷ inputs) i c = run-last inputs i (react j c).client

made-append : (n : ℕ) (a b : List Input) → made n (a ++ b) ≡ made n a + made n b
unfolding made
made-append n [] b = omega arith
made-append n (i ∷ a) b = omega (arith, made-append n a b, made-cons n i a, made-cons n i (a ++ b))

-- An input behind which nothing waits, and that makes no call.
cut_off :
    (i : Input)
    → ((c : Client) → (react i c).client.pending ≡ [])
    → ((n : ℕ) → made n (i ∷ []) ≡ 0)
    → (inputs : List Input) (c : Client) → IsClient c
    → c.pending ≡ []
    → c.xid + length inputs + 1 < 2 ^ 64
    → (n : ℕ) → ended n (run (inputs ++ i ∷ []) c).1 ≡ made n inputs
unfolding waiting
cut_off i empties makes inputs c v e b n =
    let all = (run_lem (inputs ++ i ∷ []) c v (omega (arith, length-append inputs (i ∷ [])))).1 n in
    let rest : (run (inputs ++ i ∷ []) c).0.pending ≡ [] =
      ap (λ (d : Client). d.pending) (run-last inputs i c) ∙ empties (run inputs c).0 in
    ground (arith, all, rest, e, made-append n inputs (i ∷ []), makes n)

-- When the connection of a client on which nothing waited is lost, or the client is closed, every
-- call made by then has ended, as often as it was made.
pub cut_off_lem :
    (inputs : List Input) (c : Client)
    → IsClient c
    → c.pending ≡ []
    → c.xid + length inputs + 1 < 2 ^ 64
    → (n : ℕ)
    → (ended n (run (inputs ++ connection false ∷ []) c).1 ≡ made n inputs)
      × (ended n (run (inputs ++ closing ∷ []) c).1 ≡ made n inputs)
unfolding react on_connection close clear_calls made
cut_off_lem inputs c v e b n = (
  cut_off (connection false) (λ d. refl) (λ k. refl) inputs c v e b n,
  cut_off closing (λ d. refl) (λ k. refl) inputs c v e b n,
)
