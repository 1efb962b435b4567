-- ===== src/Journal/Recovers.antt =====
-- What `replay` decides on a journal that a crash cut at any byte.
use nostdb_core.Base.{
  max_length, ℕ, suc, ◌+◌, ◌-◌, ◌≤◌, ◌<◌, ◌≡◌, refl, sym, ap, ◌∙◌, Bool, true, false, List, [], ◌∷◌,
  ◌++◌, inl, inr, append-nil, append_assoc, none, some, leb, Bool-cases, length, take, drop,
  length-append, length-take, le→leb, leb→le, take-length-append, drop-length-append, arith,
}
use nostdb_core.Generation.{Generation}
use nostdb_core.Journal.Record.{JournalRecord, begin, promote, remove, commit, encode}
use nostdb_core.Journal.Replay.{
  Recovery, replay, recovery_of, encode_all, encode_transaction, rposition, is_commit, is_begin,
  staged_files, last_transaction,
}
use nostdb_core.Journal.Codec.{AllValid}
use nostdb_core.Journal.Prefix.{intact, is_torn, read_records_prefix}

-- For valid records, `replay` of the first `n` bytes of their encoding decides on exactly the
-- records whose bytes are all there, and reports a torn tail exactly if the cut is inside a record.
pub replay-prefix :
    (n : ℕ) (rs : List JournalRecord)
    → AllValid rs
    → length (encode_all rs) < max_length
    → replay (take n (encode_all rs)) ≡ recovery_of (intact n rs) (is_torn n rs)
unfolding replay
replay-prefix n rs v h =
    let bytes = take n (encode_all rs) in
    let loop = read_records_prefix (suc (length bytes)) bytes 0 n rs [] v (omega arith) (record {
      left = refl;
      place = omega arith;
      fits = omega (arith, length-take n (encode_all rs));
    }) in
    rw (loop, replay) refl

pub intact-all :
    (rs : List JournalRecord) (n : ℕ)
    → length (encode_all rs) ≤ n
    → (intact n rs ≡ rs) × (is_torn n rs ≡ false)
unfolding intact is_torn encode_all
intact-all [] n h = (refl, refl)
intact-all (r ∷ rs) n h =
    let total = length-append (encode r) (encode_all rs) in
    let (later, tear) = intact-all rs (n - length (encode r)) (omega (arith, total)) in
    let whole : leb (length (encode r)) n ≡ true = le→leb _ _ (omega (arith, total)) in
    (rw whole (ap (◌∷◌ r) later), rw whole tear)

-- An action of a transaction: neither `Begin` nor `Commit`.
abbrev pub IsAction : JournalRecord → Type 0
IsAction (promote _ _) = Unit
IsAction (remove _) = Unit
IsAction _ = ⊥

abbrev pub AllActions : List JournalRecord → Type 0
AllActions [] = Unit
AllActions (r ∷ rs) = IsAction r × AllActions rs

-- No element passes the test.
abbrev Never {ℓ} : {A : Type ℓ} → (A → Bool) → List A → Type 0
Never p [] = Unit
Never p (x ∷ xs) = (p x ≡ false) × Never p xs

module _ {ℓ} {A : Type ℓ} (p : A → Bool) where
  rposition-Never : (xs : List A) → Never p xs → rposition p xs ≡ none
  unfolding rposition
  rposition-Never [] h = refl
  rposition-Never (x ∷ xs) (hx, hxs) = rw (rposition-Never xs hxs) (rw hx refl)

  rposition-append_some :
      (xs ys : List A) (i : ℕ)
      → rposition p ys ≡ some i
      → rposition p (xs ++ ys) ≡ some (length xs + i)
  unfolding rposition
  rposition-append_some [] ys i h = rw h (ap some (omega arith))
  rposition-append_some (x ∷ xs) ys i h =
      rw (rposition-append_some xs ys i h) (ap some (omega arith))

actions-Never_commit : (actions : List JournalRecord) → AllActions actions → Never is_commit actions
unfolding is_commit
actions-Never_commit [] a = tt
actions-Never_commit (promote s d ∷ rest) (_, a) = (refl, actions-Never_commit rest a)
actions-Never_commit (remove p ∷ rest) (_, a) = (refl, actions-Never_commit rest a)
actions-Never_commit (begin g ∷ rest) a = absurd a.0
actions-Never_commit (commit ∷ rest) a = absurd a.0

rest-Never_begin :
    (actions : List JournalRecord) → AllActions actions → Never is_begin (actions ++ commit ∷ [])
unfolding is_begin
rest-Never_begin [] a = (refl, tt)
rest-Never_begin (promote s d ∷ rest) (_, a) = (refl, rest-Never_begin rest a)
rest-Never_begin (remove p ∷ rest) (_, a) = (refl, rest-Never_begin rest a)
rest-Never_begin (begin g ∷ rest) a = absurd a.0
rest-Never_begin (commit ∷ rest) a = absurd a.0

intact-Never :
    (p : JournalRecord → Bool) (n : ℕ) (rs : List JournalRecord)
    → Never p rs
    → Never p (intact n rs)
unfolding intact
intact-Never p n [] h = tt
intact-Never p n (r ∷ rs) (hr, hrs) = elim (Bool-cases (leb (length (encode r)) n)) [
  | inl whole ↦ rw whole (hr, intact-Never p (n - length (encode r)) rs hrs)
  | inr cut ↦ rw cut tt
]

encode_all-append :
    (xs ys : List JournalRecord) → encode_all (xs ++ ys) ≡ encode_all xs ++ encode_all ys
unfolding encode_all
encode_all-append [] ys = refl
encode_all-append (x ∷ xs) ys =
    ap (λ t. encode x ++ t) (encode_all-append xs ys)
    ∙ sym (append_assoc (encode x) (encode_all xs) (encode_all ys))

-- Where the last record is not whole, the cut leaves what it leaves of the others.
intact-append_last :
    (n : ℕ) (rs : List JournalRecord) (last : JournalRecord)
    → n < length (encode_all (rs ++ last ∷ []))
    → intact n (rs ++ last ∷ []) ≡ intact n rs
unfolding intact encode_all
intact-append_last n [] last h =
    let cut : leb (length (encode last)) n ≡ false =
      let size = length-append (encode last) [] in ground (arith, size) in
    rw cut refl
intact-append_last n (r ∷ rs) last h = elim (Bool-cases (leb (length (encode r)) n)) [
  | inl whole ↦ rw whole (
      ap (◌∷◌ r) (
        intact-append_last (n - length (encode r)) rs last (
          omega (
            arith,
            length-append (encode r) (encode_all (rs ++ last ∷ [])),
            leb→le (length (encode r)) n whole,
          ))))
  | inr cut ↦ rw cut refl
]

abbrev pub records_of : Generation → List JournalRecord → List JournalRecord
records_of g actions = begin g ∷ (actions ++ commit ∷ [])

pub encode_transaction-records :
    (g : Generation) (actions : List JournalRecord)
    → encode_transaction g actions ≡ encode_all (records_of g actions)
unfolding encode_transaction encode_all
encode_transaction-records g actions =
    ap (λ t. encode (begin g) ++ t)
      (ap (λ t. encode_all actions ++ t) (sym (append-nil (encode commit)))
        ∙ sym (encode_all-append actions (commit ∷ [])))

AllValid-append : (xs ys : List JournalRecord) → AllValid xs → AllValid ys → AllValid (xs ++ ys)
AllValid-append [] ys h k = k
AllValid-append (x ∷ xs) ys (hx, hxs) k = (hx, AllValid-append xs ys hxs k)

committed_records :
    (g : Generation) (actions : List JournalRecord) (t : Bool)
    → AllActions actions
    → ◌≡◌ {A = Recovery}
        (record {
          committed = last_transaction (records_of g actions);
          abandoned_staged = staged_files [];
          truncated = t;
        })
        (record { committed = records_of g actions; abandoned_staged = []; truncated = t })
unfolding last_transaction staged_files rposition is_begin
committed_records g actions t a =
    let later : rposition is_begin (actions ++ commit ∷ []) ≡ none =
      rposition-Never is_begin (actions ++ commit ∷ []) (rest-Never_begin actions a) in
    rw (later, last_transaction, rposition) refl

recovery_of-committed :
    (g : Generation) (actions : List JournalRecord) (t : Bool)
    → AllActions actions
    → recovery_of (records_of g actions) t
      ≡ record { committed = records_of g actions; abandoned_staged = []; truncated = t }
unfolding recovery_of
recovery_of-committed g actions t a =
    let all = records_of g actions in
    let n = length actions in
    let last : rposition is_commit all ≡ some (suc n + 0) =
      rposition-append_some is_commit (begin g ∷ actions) (commit ∷ []) 0
        (unfold rposition is_commit in refl) in
    let end : suc n + 0 + 1 ≡ length all = omega (arith, length-append actions (commit ∷ [])) in
    let kept : take (length all) all ≡ all =
      ap (take (length all)) (sym (append-nil all)) ∙ take-length-append all [] in
    let behind : drop (length all) all ≡ [] =
      ap (drop (length all)) (sym (append-nil all)) ∙ drop-length-append all [] in
    rw (last, recovery_of) (rw end (rw (kept, behind) (committed_records g actions t a)))

module _ (g : Generation) (actions : List JournalRecord) (whole : AllActions actions)
    (valid : AllValid (begin g ∷ actions))
    (size : length (encode_transaction g actions) < max_length) where
  all_valid : AllValid (records_of g actions)
  all_valid = (valid.0, AllValid-append actions (commit ∷ []) valid.1 (tt, tt))

  size_all : length (encode_all (records_of g actions)) < max_length
  size_all = rw (encode_transaction-records g actions) at size

  -- Replaying a whole transaction of valid actions gives back all its records as committed, no
  -- abandoned file and no torn tail.
  pub replay-encode_transaction :
      replay (encode_transaction g actions)
      ≡ record { committed = records_of g actions; abandoned_staged = []; truncated = false }
  replay-encode_transaction =
      let all = records_of g actions in
      let bytes = encode_all all in
      let full : take (length bytes) bytes ≡ bytes =
        ap (take (length bytes)) (sym (append-nil bytes)) ∙ take-length-append bytes [] in
      let (read, tear) = intact-all all (length bytes) (omega arith) in
      rw (encode_transaction-records g actions) (
        ap replay (sym full)
        ∙ replay-prefix (length bytes) all all_valid size_all
        ∙ rw (read, tear) (recovery_of-committed g actions false whole))

  -- Replaying the first `n` bytes of a transaction of valid actions, fewer than all, commits nothing: it gives up
  -- the staged files of the actions whose records are whole, and reports a torn tail exactly if
  -- the cut is inside a record.
  pub replay-encode_transaction_torn :
      (n : ℕ)
      → n < length (encode_transaction g actions)
      → replay (take n (encode_transaction g actions)) ≡ record {
        committed = [];
        abandoned_staged = staged_files (intact n (begin g ∷ actions));
        truncated = is_torn n (records_of g actions);
      }
  replay-encode_transaction_torn n h =
      let all = records_of g actions in
      let short : n < length (encode_all all) = rw (encode_transaction-records g actions) at h in
      let none_committed : rposition is_commit (intact n (begin g ∷ actions)) ≡ none =
        rposition-Never is_commit _ (
          intact-Never is_commit n (begin g ∷ actions)
            (unfold is_commit in refl, actions-Never_commit actions whole)) in
      rw (encode_transaction-records g actions) (
        replay-prefix n all all_valid size_all
        ∙ rw (intact-append_last n (begin g ∷ actions) commit short)
            (unfold recovery_of in rw (none_committed, recovery_of) refl))
