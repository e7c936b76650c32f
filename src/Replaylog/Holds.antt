-- ===== src/Replaylog/Holds.antt =====
-- A log of crates/datarail-replaylog/src/lib.rs as the list of its records: what `append` and `rotate` do.
use hu_gr_datarail.Prelude.{◌^◌, ◌<◌}
use hu_gr_datarail.Prelude.{
  ℕ, zero, suc, ◌+◌, ◌-◌, ◌≤◌, ◌≡◌, refl, sym, ap, ◌∙◌, true, false, none, some, List, [], ◌∷◌,
  ◌++◌, append-nil, Bytes, length, take, drop, ltb, nat_eq, arith, All, ℕ_eq, take-all,
}
use hu_gr_datarail.Prelude.Dict
use hu_gr_datarail.Replaylog.{Dir, ReplayLog, file_at, put_file, zeros, resize, write_at}
use hu_gr_datarail.Replaylog.Frames.{frames}
use hu_gr_datarail.Replaylog.Segments.{size, joined, dir_of, size-append, IsClosed, file-at}

-- A log whose records are `records`: its last segment is the active one, and may be empty.
pub record Holds (records : List Bytes) (log : ReplayLog) : Type 0 where
  pub closed : List (List Bytes)
  pub last : List Bytes
  pub dir_eq : log.dir ≡ dir_of 0 (closed ++ (last ∷ []))
  pub all_closed : All IsClosed closed
  pub records_eq : joined closed ++ last ≡ records
  pub start_eq : log.active_start ≡ size (joined closed)
  pub active_eq : log.active ≡ size (joined closed)
  pub position_eq : log.position ≡ size last
  pub offset_eq : log.write_offset ≡ size records
  pub word : size records < 2 ^ 64

put-past :
    (o : ℕ) (closed : List (List Bytes)) (last : Dir) (k : ℕ) (bytes : Bytes)
    → All IsClosed closed
    → k ≡ o + size (joined closed)
    → (put_file last k bytes ≡ (k, bytes) ∷ [])
    → put_file (dir_of o closed ++ last) k bytes ≡ dir_of o closed ++ ((k, bytes) ∷ [])
unfolding put_file Dict.insert_by frames
put-past o [] last k bytes h e p = p
put-past o (seg ∷ closed) last k bytes (h, hs) e p =
    let s = size-append seg (joined closed) in
    let here : nat_eq o k ≡ false = ground (arith, h, e, s) in
    let before : ltb k o ≡ false = ground (arith, h, e, s) in
    rw here (
      rw before (
        ap (λ d. (o, frames seg) ∷ d)
          (put-past (o + size seg) closed last k bytes hs (omega (arith, e, s)) p)))

pub dir_of-snoc :
    (o : ℕ) (closed : List (List Bytes)) (last : List Bytes)
    → dir_of o (closed ++ (last ∷ []))
      ≡ dir_of o closed ++ ((o + size (joined closed), frames last) ∷ [])
unfolding frames
dir_of-snoc o [] last = ap (λ k. (k, frames last) ∷ []) {x = o} {y = o + 0} (omega arith)
dir_of-snoc o (seg ∷ closed) last =
    ap (λ d. (o, frames seg) ∷ d)
      (dir_of-snoc (o + size seg) closed last
        ∙ ap (λ k. dir_of (o + size seg) closed ++ ((k, frames last) ∷ []))
            {x = o + size seg + size (joined closed)} {y = o + size (seg ++ joined closed)}
            (omega (arith, size-append seg (joined closed))))

-- the file of the last segment is replaced
pub put-file :
    (closed : List (List Bytes)) (old bytes : Bytes)
    → All IsClosed closed
    → put_file
        (dir_of 0 closed ++ ((0 + size (joined closed), old) ∷ []))
        (size (joined closed))
        bytes
      ≡ dir_of 0 closed ++ ((0 + size (joined closed), bytes) ∷ [])
unfolding put_file Dict.insert_by
put-file closed old bytes h =
    let k = size (joined closed) in
    let same : nat_eq (0 + k) k ≡ true = ground arith in
    put-past 0 closed ((0 + k, old) ∷ []) k bytes h (omega arith) (rw same refl)
    ∙ ap (λ j. dir_of 0 closed ++ ((j, bytes) ∷ [])) {x = k} {y = 0 + k} (omega arith)

pub put-last :
    (closed : List (List Bytes)) (last next : List Bytes)
    → All IsClosed closed
    → put_file (dir_of 0 (closed ++ (last ∷ []))) (size (joined closed)) (frames next)
      ≡ dir_of 0 (closed ++ (next ∷ []))
put-last closed last next h =
    ap (λ d. put_file d (size (joined closed)) (frames next)) (dir_of-snoc 0 closed last)
    ∙ put-file closed (frames last) (frames next) h
    ∙ sym (dir_of-snoc 0 closed next)

pub put-new :
    (closed : List (List Bytes)) (next : List Bytes)
    → All IsClosed closed
    → put_file (dir_of 0 closed) (size (joined closed)) (frames next)
      ≡ dir_of 0 (closed ++ (next ∷ []))
unfolding put_file Dict.insert_by
put-new closed next h =
    let k = size (joined closed) in
    ap (λ d. put_file d k (frames next)) (sym (append-nil (dir_of 0 closed)))
    ∙ put-past 0 closed [] k (frames next) h (omega arith) refl
    ∙ ap (λ j. dir_of 0 closed ++ ((j, frames next) ∷ [])) {x = k} {y = 0 + k} (omega arith)
    ∙ sym (dir_of-snoc 0 closed next)

get-new :
    (o : ℕ) (closed : List (List Bytes)) (k : ℕ)
    → All IsClosed closed
    → o + size (joined closed) ≤ k
    → Dict.get (dir_of o closed) k ≡ none
unfolding Dict.get frames
get-new o [] k h l = refl
get-new o (seg ∷ closed) k (h, hs) l =
    let s = size-append seg (joined closed) in
    let past : nat_eq o k ≡ false = ground (arith, h, l, s) in
    rw past (get-new (o + size seg) closed k hs (omega (arith, l, s)))

pub file_at-last :
    (closed : List (List Bytes)) (last : List Bytes)
    → All IsClosed closed
    → file_at (dir_of 0 (closed ++ (last ∷ []))) (size (joined closed)) ≡ frames last
unfolding file_at
file_at-last closed last h =
    let found : Dict.get (dir_of 0 (closed ++ (last ∷ []))) (size (joined closed))
        ≡ some (frames last) =
      ap (Dict.get (dir_of 0 (closed ++ (last ∷ [])))) {x = size (joined closed)}
        {y = 0 + size (joined closed)} (omega arith)
      ∙ file-at 0 closed last [] h in
    rw (file_at, found) refl

pub file_at-new :
    (closed : List (List Bytes))
    → All IsClosed closed
    → file_at (dir_of 0 closed) (size (joined closed)) ≡ []
unfolding file_at
file_at-new closed h = rw (file_at, get-new 0 closed (size (joined closed)) h (omega arith)) refl

pub resize-same : (bytes : Bytes) → resize (length bytes) bytes ≡ bytes
unfolding resize zeros
resize-same bytes =
    let whole : take (length bytes) bytes ≡ bytes = take-all (length bytes) bytes (omega arith) in
    let grown : length bytes - length bytes ≡ 0 = omega arith in
    rw (resize, whole, grown) (append-nil bytes)

drop-all : (n : ℕ) (xs : Bytes) → length xs ≤ n → drop n xs ≡ []
drop-all zero [] h = refl
drop-all zero (x ∷ xs) h = absurd (omega (arith, h))
drop-all (suc n) [] h = refl
drop-all (suc n) (x ∷ xs) h = drop-all n xs (omega (arith, h))

pub write_at-end : (piece bytes : Bytes) → write_at (length bytes) piece bytes ≡ bytes ++ piece
unfolding write_at
write_at-end piece bytes =
    let past : drop (length bytes + length piece) bytes ≡ [] = drop-all _ bytes (omega arith) in
    rw (write_at, resize-same bytes, past) (ap (λ x. bytes ++ x) (append-nil piece))
