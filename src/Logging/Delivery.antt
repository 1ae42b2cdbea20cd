-- ===== src/Logging/Delivery.antt =====
-- Every line of the log is written once and in order, unless `sync_loop` runs.
use tiny_rpc.Base.{
  ℕ, ◌+◌, ◌<◌, ◌≡◌, refl, sym, ap, ◌∙◌, List, [], ◌∷◌, ◌++◌, map, false, Option, none, some, arith,
  ltb, if◌then◌else◌, same, append-nil, length, append_assoc, lt→ltb, if-either,
}
use tiny_rpc.Logging.{
  AsyncLogger, Logger, push_log_buffer, hand_over, push_log, log, sync_loop, turn_date, reopen,
  open_unless, open_file, rotate, prepare, write_batch, lines_to, write_lines, write_round,
  write_rounds,
}

abbrev pub concat : List (List (List ℕ)) → List (List ℕ)
concat [] = []
concat (xs ∷ xss) = xs ++ concat xss

concat-snoc :
    (xss : List (List (List ℕ))) (xs : List (List ℕ)) → concat (xss ++ xs ∷ []) ≡ concat xss ++ xs
concat-snoc [] xs = append-nil xs
concat-snoc (ys ∷ xss) xs = rw (concat-snoc xss xs, append_assoc ys (concat xss) xs)

-- The lines that wait to be written, oldest first.
abbrev pub waiting_lines : Logger → List (List ℕ)
waiting_lines l = concat l.m_async_logger.m_buffer ++ l.m_buffer

pub hand_over_lem :
    (a : AsyncLogger) (vec : List (List ℕ))
    → concat (hand_over a vec).m_buffer ≡ concat a.m_buffer ++ vec
unfolding hand_over push_log_buffer
hand_over_lem a [] = sym (append-nil (concat a.m_buffer))
hand_over_lem a (line ∷ lines) = concat-snoc a.m_buffer (line ∷ lines)

-- push_log followed by log adds the line behind all lines that wait to be written, and leaves
-- no line in the buffer of the logger.
log_lem :
    (l : Logger) (message : List ℕ)
    → let l' = log (push_log l message) in
      (waiting_lines l' ≡ waiting_lines l ++ message ∷ []) × (l'.m_buffer ≡ [])
unfolding log push_log
log_lem l message = (
  append-nil (concat (hand_over l.m_async_logger (l.m_buffer ++ message ∷ [])).m_buffer)
      ∙ hand_over_lem l.m_async_logger (l.m_buffer ++ message ∷ [])
      ∙ sym (append_assoc (concat l.m_async_logger.m_buffer) l.m_buffer (message ∷ [])),
  refl,
)

-- sync_loop makes the lines in the buffer of the logger wait twice: it hands them over and
-- keeps them in the buffer.
sync_loop-twice : (l : Logger) → waiting_lines (sync_loop l) ≡ waiting_lines l ++ l.m_buffer
unfolding sync_loop
sync_loop-twice l = ap (λ xs. xs ++ l.m_buffer) (hand_over_lem l.m_async_logger l.m_buffer)

-- A file is open when the lines of a round are written.
record Prepared (a a' : AsyncLogger) : Type 0 where
  file : List ℕ × ℕ
  opened : a'.m_file_handler ≡ some file
  written_kept : a'.written ≡ a.written
  queue_kept : a'.m_buffer ≡ a.m_buffer
  stop_kept : a'.m_stop_flag ≡ a.m_stop_flag

reopened : (a : AsyncLogger) → Prepared a (reopen a)
reopened a = record {
  file = (a.m_date, a.m_number);
  opened = refl;
  written_kept = refl;
  queue_kept = refl;
  stop_kept = refl;
}

open_unless-Prepared :
    (o : Option (List ℕ × ℕ)) (a : AsyncLogger)
    → a.m_file_handler ≡ o
    → Prepared a (open_unless o a)
unfolding open_unless
open_unless-Prepared none a e = reopened a
open_unless-Prepared (some file) a e =
    if-either (Prepared a) a.m_reopen_flag (reopened a)
      (record { file = file; opened = e; written_kept = refl; queue_kept = refl; stop_kept = refl })

rotate-Prepared : (told : ℕ) (a b : AsyncLogger) → Prepared a b → Prepared a (rotate told b)
unfolding rotate
rotate-Prepared told a b p =
    if-either (Prepared a) (ltb b.m_file_max_size told)
      (record {
        file = (b.m_date, b.m_number);
        opened = refl;
        written_kept = p.written_kept;
        queue_kept = p.queue_kept;
        stop_kept = p.stop_kept;
      })
      p

turn_date_kept :
    (date : List ℕ) (a : AsyncLogger)
    → let a' = turn_date date a in
      (a'.written ≡ a.written) × (a'.m_buffer ≡ a.m_buffer) × (a'.m_stop_flag ≡ a.m_stop_flag)
unfolding turn_date
turn_date_kept date a =
    if-either
      (λ (u : AsyncLogger).
        (u.written ≡ a.written) × (u.m_buffer ≡ a.m_buffer) × (u.m_stop_flag ≡ a.m_stop_flag))
      (same date a.m_date) (refl, refl, refl) (refl, refl, refl)

prepare-Prepared : (date : List ℕ) (told : ℕ) (a : AsyncLogger) → Prepared a (prepare date told a)
unfolding prepare open_file
prepare-Prepared date told a =
    let a' = turn_date date a in
    let (w, q, f) = turn_date_kept date a in
    let p =
      rotate-Prepared told a' (open_file a') (open_unless-Prepared a'.m_file_handler a' refl) in
    record {
      file = p.file;
      opened = p.opened;
      written_kept = p.written_kept ∙ w;
      queue_kept = p.queue_kept ∙ q;
      stop_kept = p.stop_kept ∙ f;
    }

-- The texts that `fwrite` has been given, and those of the lines that still wait, in order.
abbrev pub texts : AsyncLogger → List (List ℕ)
texts a = map (λ w. w.1) a.written ++ map (λ line. line ++ b'\n' ∷ []) (concat a.m_buffer)

texts_to :
    (file : List ℕ × ℕ) (lines : List (List ℕ))
    → map (λ w. w.1) (lines_to (some file) lines) ≡ map (λ line. line ++ b'\n' ∷ []) lines
texts_to file [] = refl
texts_to file (line ∷ lines) = ap (◌∷◌ (line ++ b'\n' ∷ [])) (texts_to file lines)

map-append {ℓ κ} :
    {A : Type ℓ} {B : Type κ} (f : A → B) (xs ys : List A) → map f (xs ++ ys) ≡ map f xs ++ map f ys
map-append f [] ys = refl
map-append f (x ∷ xs) ys = ap (◌∷◌ (f x)) (map-append f xs ys)

batch_written :
    (date : List ℕ) (told : ℕ) (a : AsyncLogger) (tmp : List (List ℕ)) (rest : List (List (List ℕ)))
    → texts (write_lines tmp (prepare date told (record a { m_buffer = rest })))
      ≡ map (λ w. w.1) a.written ++ map (λ line. line ++ b'\n' ∷ []) (tmp ++ concat rest)
unfolding write_lines
batch_written date told a tmp rest =
    let p = prepare-Prepared date told (record a { m_buffer = rest }) in
    rw (
      p.opened,
      p.written_kept,
      p.queue_kept,
      map-append (λ w. w.1) a.written (lines_to (some p.file) tmp),
      texts_to p.file tmp,
      append_assoc (map (λ w. w.1) a.written) (map (λ line. line ++ b'\n' ∷ []) tmp)
          (map (λ line. line ++ b'\n' ∷ []) (concat rest)),
      map-append (λ (line : List ℕ). line ++ b'\n' ∷ []) tmp (concat rest),
    )

pub write_round-texts :
    (date : List ℕ) (told : ℕ) (a : AsyncLogger) → texts (write_round date told a) ≡ texts a
unfolding write_round write_batch
write_round-texts date told a = go a.m_buffer refl
  where
    go : (q : List (List (List ℕ))) → a.m_buffer ≡ q → texts (write_batch date told a q) ≡ texts a
    go [] e = refl
    go (tmp ∷ rest) e =
        if-either (λ (u : AsyncLogger). texts u ≡ texts a) a.m_stop_flag refl
          (batch_written date told a tmp rest
            ∙ ap (λ q. map (λ w. w.1) a.written ++ map (λ line. line ++ b'\n' ∷ []) (concat q))
                (sym e))

-- When the open file is the one that the date and the number name and is over the size limit,
-- the log thread opens the same file again and counts the number up.
rotate-same :
    (told : ℕ) (a : AsyncLogger)
    → a.m_file_handler ≡ some (a.m_date, a.m_number)
    → a.m_file_max_size < told
    → ((rotate told a).m_file_handler ≡ a.m_file_handler)
      × ((rotate told a).m_number ≡ a.m_number + 1)
unfolding rotate
rotate-same told a e h = rw (lt→ltb a.m_file_max_size told h) (sym e, refl)

write_batch_queue :
    (date : List ℕ) (told : ℕ) (a : AsyncLogger) (tmp : List (List ℕ)) (rest : List (List (List ℕ)))
    → a.m_stop_flag ≡ false
    → let a' = write_batch date told a (tmp ∷ rest) in
      (a'.m_buffer ≡ rest) × (a'.m_stop_flag ≡ false)
unfolding write_batch write_lines
write_batch_queue date told a tmp rest e =
    let p = prepare-Prepared date told (record a { m_buffer = rest }) in
    let u = write_lines tmp (prepare date told (record a { m_buffer = rest })) in
    (
      ap (λ f. (if f then a else u).m_buffer) e ∙ p.queue_kept,
      ap (λ f. (if f then a else u).m_stop_flag) e ∙ p.stop_kept ∙ e,
    )

write_rounds-texts :
    (rs : List (List ℕ × ℕ)) (a : AsyncLogger) → texts (write_rounds rs a) ≡ texts a
unfolding write_rounds
write_rounds-texts [] a = refl
write_rounds-texts ((date, told) ∷ rs) a =
    write_rounds-texts rs (write_round date told a) ∙ write_round-texts date told a

write_rounds_queue :
    (rs : List (List ℕ × ℕ)) (a : AsyncLogger) (q : List (List (List ℕ)))
    → a.m_buffer ≡ q
    → a.m_stop_flag ≡ false
    → length rs ≡ length q
    → (write_rounds rs a).m_buffer ≡ []
unfolding write_rounds write_round
write_rounds_queue [] a [] e s h = e
write_rounds_queue [] a (tmp ∷ q) e s h = absurd (omega arith)
write_rounds_queue ((date, told) ∷ rs) a [] e s h = absurd (omega arith)
write_rounds_queue ((date, told) ∷ rs) a (tmp ∷ q) e s h =
    let (m, s') = write_batch_queue date told a tmp q s in
    write_rounds_queue rs (write_batch date told a a.m_buffer) q
      (ap (λ q. (write_batch date told a q).m_buffer) e ∙ m)
      (ap (λ q. (write_batch date told a q).m_stop_flag) e ∙ s') (omega arith)

-- A log thread that is not stopped writes, in as many rounds as there are vectors in its queue,
-- every line of them after what it had written, once and in order, each with a newline,
-- whatever the dates and file sizes are; its queue is then empty.
pub write_rounds_lem :
    (rs : List (List ℕ × ℕ)) (a : AsyncLogger)
    → a.m_stop_flag ≡ false
    → length rs ≡ length a.m_buffer
    → let a' = write_rounds rs a in (map (λ w. w.1) a'.written ≡ texts a) × (a'.m_buffer ≡ [])
write_rounds_lem rs a s h =
    let e = write_rounds_queue rs a a.m_buffer refl s h in
    let a' = write_rounds rs a in
    (
      sym (append-nil (map (λ w. w.1) a'.written))
          ∙ ap (λ q. map (λ w. w.1) a'.written ++ map (λ line. line ++ b'\n' ∷ []) (concat q))
              (sym e)
          ∙ write_rounds-texts rs a,
      e,
    )
