-- ===== src/Capture/Sequence.antt =====
-- src/core.cpp `read_capture`: the gap and order counts of one connection.
use mathlib.Core.Path.{subst}
use native.Mathlib.Decide.{dec_lt}
use bengal_market.Base.{
  All, List, Option, [], ap, arith, false, if◌then◌else◌, leb, length, ltb, max, refl, some, true,
  ℕ, ◌&&◌, ◌+◌, ◌-◌, ◌<◌, ◌>>=◌, ◌∙◌, ◌∷◌, ◌≡◌, ◌≤◌,
}
use bengal_market.Base.Words.{max_u64, sub_u64}
use bengal_market.Capture.{
  Reader, count_sequence, find_sequence, fresh_reader, note_sequence, put_sequence, seen_before,
}
use bengal_market.Report.{ParseMetrics}

-- The sequence numbers of one connection, one after the other.
pub note_all : Reader → ℕ → List ℕ → Option Reader
note_all r id [] = some r
note_all r id (sequence ∷ rest) = note_sequence r id sequence >>= (λ r'. note_all r' id rest)

abbrev pub highest : ℕ → List ℕ → ℕ
highest top [] = top
highest top (sequence ∷ rest) = highest (max top sequence) rest

-- After `n` numbers behind `first`, `top` being the highest: what is missing between `first` and
-- `top`, and what came late, make up for each other.
pub record Accounts (id first top n : ℕ) (r : Reader) : Type 0 where
  pub current : find_sequence id r.last_sequences ≡ some top
  pub above : first ≤ top
  pub within : top ≤ max_u64
  pub balance : r.metrics.sequence_gaps + n + first ≡ top + r.metrics.out_of_order
  pub late : r.metrics.out_of_order ≤ n

find_sequence-put_sequence :
    (id sequence old : ℕ) (l : List (ℕ × ℕ))
    → find_sequence id l ≡ some old
    → find_sequence id (put_sequence id sequence l) ≡ some sequence
unfolding find_sequence put_sequence
find_sequence-put_sequence id sequence old [] e = cc e
find_sequence-put_sequence id sequence old ((i, n) ∷ l) e =
    ground (arith, e, find_sequence-put_sequence id sequence old l)

counts_up :
    (sequence previous first n : ℕ) (m : ParseMetrics)
    → sequence ≤ max_u64
    → n < max_u64
    → first ≤ previous
    → previous ≤ max_u64
    → m.sequence_gaps + n + first ≡ previous + m.out_of_order
    → m.out_of_order ≤ n
    → ((count_sequence sequence previous m).sequence_gaps + (n + 1) + first
        ≡ max previous sequence + (count_sequence sequence previous m).out_of_order)
      × ((count_sequence sequence previous m).out_of_order ≤ n + 1)
unfolding count_sequence
counts_up sequence previous first n m hs hn hf hp e l = elim (dec_lt previous sequence) [
  | yes up ↦ elim (dec_lt 1 (sequence - previous)) [
    | yes gap ↦
        let t : (ltb previous sequence && ltb 1 (sub_u64 sequence previous)) ≡ true =
          ground arith in
        rw t (omega arith, omega arith)
    | no close ↦
        let t : (ltb previous sequence && ltb 1 (sub_u64 sequence previous)) ≡ false =
          ground arith in
        let f : leb sequence previous ≡ false = ground arith in rw (t, f) (omega arith, omega arith)
  ]
  | no down ↦
      let t : (ltb previous sequence && ltb 1 (sub_u64 sequence previous)) ≡ false = ground arith in
      let f : leb sequence previous ≡ true = ground arith in rw (t, f) (omega arith, omega arith)
]

current_after :
    (id sequence top : ℕ) (l : List (ℕ × ℕ))
    → find_sequence id l ≡ some top
    → find_sequence id (if ltb top sequence then put_sequence id sequence l else l)
      ≡ some (max top sequence)
current_after id sequence top l e = elim (dec_lt top sequence) [
  | yes up ↦
      let t : ltb top sequence ≡ true = ground arith in
      rw t (find_sequence-put_sequence id sequence top l e ∙ ap some (omega arith))
  | no down ↦ let t : ltb top sequence ≡ false = ground arith in rw t (e ∙ ap some (omega arith))
]

note_sequence-Accounts :
    (id first top n sequence : ℕ) (r : Reader)
    → sequence ≤ max_u64
    → n < max_u64
    → Accounts id first top n r
    → (r' : Reader) × (note_sequence r id sequence ≡ some r')
      × Accounts id first (max top sequence) (n + 1) r'
unfolding note_sequence seen_before
note_sequence-Accounts id first top n sequence r hs hn a =
    let (balance, late) =
      counts_up sequence top first n r.metrics hs hn a.above a.within a.balance a.late in
    (
      seen_before r id sequence top,
      rw (note_sequence, a.current) refl,
      record {
        current = current_after id sequence top r.last_sequences a.current;
        above = omega (arith, a.above);
        within = omega (arith, a.within);
        balance = balance;
        late = late;
      },
    )

note_all-Accounts :
    (id first : ℕ) (rest : List ℕ) (top n : ℕ) (r : Reader)
    → All (λ s. s ≤ max_u64) rest
    → n + length rest ≤ max_u64
    → Accounts id first top n r
    → (r' : Reader) × (note_all r id rest ≡ some r')
      × Accounts id first (highest top rest) (n + length rest) r'
unfolding note_all
note_all-Accounts id first [] top n r hs hn a =
    (r, refl, subst (λ k. Accounts id first top k r) (omega arith) a)
note_all-Accounts id first (s ∷ rest) top n r (hs, hss) hn a =
    let (r1, e1, a1) = note_sequence-Accounts id first top n s r hs (omega arith) a in
    let (r', e', a') =
      note_all-Accounts id first rest (max top s) (n + 1) r1 hss (omega arith) a1 in
    (r', rw e1 e', subst (λ k. Accounts id first (highest (max top s) rest) k r') (omega arith) a')

-- For one connection's sequence numbers, fewer than 2^64 of them, from a reader that has seen none:
-- none of them throws, the highest one is kept, and `sequence_gaps` and `out_of_order` balance: the
-- numbers behind the first one and the gaps come to the way from the first to the highest and the
-- late ones.
pub note_all-fresh_reader :
    (id first : ℕ) (rest : List ℕ)
    → first ≤ max_u64
    → All (λ s. s ≤ max_u64) rest
    → length rest ≤ max_u64
    → (r : Reader) × (note_all fresh_reader id (first ∷ rest) ≡ some r)
      × Accounts id first (highest first rest) (length rest) r
unfolding note_all note_sequence find_sequence
note_all-fresh_reader id first rest hf hs hn =
    let (r, e, a) =
      note_all-Accounts id first rest first 0
        (record fresh_reader { last_sequences = (id, first) ∷ [] }) hs (omega arith)
        (record {
          current = ground arith;
          above = omega arith;
          within = hf;
          balance = omega arith;
          late = omega arith;
        }) in
    (r, e, subst (λ k. Accounts id first (highest first rest) k r) (omega arith) a)
