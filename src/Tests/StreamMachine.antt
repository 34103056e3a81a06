-- ===== src/Tests/StreamMachine.antt =====
-- The machine's stream gives each entry to its group once.
use mathlib.Core.List.{append-nil}
use mathlib.Core.Option.{some-injective}
use trade_journal.Prelude.{
  ℕ, zero, suc, ◌-◌, ◌≤◌, String, ◌≡◌, refl, sym, ap, subst, ◌∙◌, none, some, List, [], ◌∷◌, ◌++◌,
  map, take, drop, length, arith,
}
use trade_journal.Platform.{Message}
use trade_journal.Platform.Laws.{GroupLaws, messages}
use trade_journal.Tests.Machine.{machine, Server, entry_id, next_of, give}

pub take-drop : (n : ℕ) (ms : List Message) → take n ms ++ drop n ms ≡ ms
take-drop zero ms = refl
take-drop (suc n) [] = refl
take-drop (suc n) (m ∷ ms) = ap (λ xs. m ∷ xs) (take-drop n ms)

-- What a read is given, and what it leaves.
pub record Gives (us : List Message) (r : Server) (x : List (String × List Message) × Server)
    : Type 0 where
  pub some_read : 1 ≤ length (messages x.0)
  pub next : us ≡ messages x.0 ++ x.1.unread
  pub owed : x.1.pending ≡ r.pending ++ map (λ m. m.id) (messages x.0)

give-Gives :
    (r : Server) (count : ℕ) (m : Message) (ms : List Message)
    → Gives (m ∷ ms) r (give r (m ∷ take (count - 1) ms) (drop (count - 1) ms))
give-Gives r count m ms =
    let batch = m ∷ take (count - 1) ms in
    let all = append-nil batch in
    record {
      some_read = subst (λ xs. 1 ≤ length xs) (sym all) (omega arith);
      next =
          ap (λ xs. m ∷ xs) (sym (take-drop (count - 1) ms))
          ∙ ap (λ xs. xs ++ drop (count - 1) ms) (sym all);
      owed = ap (λ xs. r.pending ++ map (λ x. x.id) xs) (sym all);
    }

pub next_of-Gives :
    (r : Server) (count : ℕ) (us : List Message) (x : List (String × List Message) × Server)
    → next_of r count us ≡ some x
    → Gives us r x
next_of-Gives r count [] x e = cc
next_of-Gives r count (m ∷ ms) x e =
    subst (Gives (m ∷ ms) r) (some-injective _ _ e) (give-Gives r count m ms)

pub next_of-none :
    (r : Server) (count : ℕ) (us : List Message) → next_of r count us ≡ none → us ≡ []
next_of-none r count [] e = refl
next_of-none r count (m ∷ ms) e = cc

abbrev pub groups : GroupLaws machine
groups = record {
  unread = λ r stream group. r.unread;
  pending = λ r stream group. r.pending;
  read_none = λ r group consumer stream count block e. next_of-none r count r.unread e;
  read_some = λ r r' group consumer stream count block streams e.
      let given = next_of-Gives r count r.unread (streams, r') e in
      (given.some_read, given.next, given.owed);
  ack_unread = λ r stream group id. refl;
  ack_pending = λ r stream group id. refl;
  added = λ r stream values. record { id = entry_id r.entries; values = values };
  added_values = λ r stream values. refl;
  add_unread = λ r stream group values. refl;
  unread-set = λ r stream group t k v ttl other. refl;
  unread-zadd = λ r stream group key member score. refl;
  window_frame = λ r stream group key member score lo hi. (refl, refl);
}
