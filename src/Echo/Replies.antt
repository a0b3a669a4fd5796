-- ===== src/Echo/Replies.antt =====
-- What the two servers send (asio/allocation/allocation.cpp and
-- asio/buffer/reference_counted_buffer.cpp).
use cpp_demo.Prelude.{
  ℕ, ◌+◌, ◌≡◌, ◌≤◌, refl, ap, inl, inr, Bool-cases, ◌∙◌, Bool, true, false, ◌&&◌, List, [], ◌∷◌,
  ◌++◌, map, Text, codes, length, drop, leb, if◌then◌else◌, Option, none, some, All, arith,
  length-append, take-append, length-drop,
}
use cpp_demo.Echo.{
  Connection, Pending, writing, reading, closed, data_size, response, received, copy_over,
  write_from, do_write_in_place, do_write_shared, on_written, on_read,
}

-- One exchange: the bytes that a read brings, and the daytime text of the answer.
abbrev pub Round : Type 0
Round = Text × Text

abbrev text_of : Pending → Text
text_of (writing t) = t
text_of reading = []
text_of closed = []

abbrev cons? : Text → Option (List Text) → Option (List Text)
cons? t none = none
cons? t (some ts) = some (t ∷ ts)

module _ (do_write : ℕ → Text → Connection → Option Connection) where
  -- The answers of a connection whose write is under way: in each round that write completes, and a
  -- read completes.
  unfoldable pub answers : Connection → List Round → Option (List Text)
  answers c [] = some []
  answers c ((bytes, daytime) ∷ rs) =
      elim (on_read do_write false bytes daytime (on_written false c)) [
        | none ↦ none
        | some d ↦ cons? (text_of d.pending) (answers d rs)
      ]

-- The answer that a round is to have.
abbrev pub reply : Round → Text
reply (bytes, daytime) = codes "got " ++ (bytes ++ (codes " on " ++ daytime))

abbrev pub fits : Round → Bool
fits (bytes, daytime) = leb (length bytes + length daytime + 8) data_size

abbrev pub all_fit : List Round → Bool
all_fit [] = true
all_fit (r ∷ rs) = fits r && all_fit rs

-- No read brings more than `data_` holds.
abbrev pub Readable : Round → Type 0
Readable r = length (r.0) ≤ data_size

response_lem :
    (bytes daytime buffer : Text)
    → response (received bytes buffer) (length bytes) daytime ≡ reply (bytes, daytime)
response_lem bytes daytime buffer =
    ap (λ t. codes "got " ++ (t ++ (codes " on " ++ daytime)))
      (take-append bytes (drop (length bytes) buffer))

write_from_if :
    (f : Bool) (text rest : Text)
    → write_from (length text) (if f then some (text ++ rest) else none)
      ≡ (if f then some (record { buffer = text ++ rest; pending = writing text }) else none)
unfolding write_from
write_from_if true text rest =
    ap (λ t. some (record { buffer = text ++ rest; pending = writing t })) (take-append text rest)
write_from_if false text rest = refl

-- Text written over a longer buffer leaves the buffer's length.
length-over :
    (text buffer : Text)
    → length text ≤ length buffer
    → length (text ++ drop (length text) buffer) ≡ length buffer
length-over text buffer h =
    omega (arith, length-append text (drop (length text) buffer), length-drop (length text) buffer)

length-reply :
    (bytes daytime : Text) → length (reply (bytes, daytime)) ≡ length bytes + length daytime + 8
length-reply bytes daytime = omega (arith, length-append bytes (codes " on " ++ daytime))

module _ (c : Connection) (bytes daytime : Text) (size : length c.buffer ≡ data_size)
    (short : length bytes ≤ data_size) where
  read_shared :
      on_read do_write_shared false bytes daytime (on_written false c)
      ≡ some
          (record { buffer = received bytes c.buffer; pending = writing (reply (bytes, daytime)) })
  unfolding on_read on_written do_write_shared
  read_shared =
      ap (λ t. some (record { buffer = received bytes c.buffer; pending = writing t }))
        (response_lem bytes daytime c.buffer)

  -- What a reply that fits leaves in `data_`.
  abbrev overwritten : Text
  overwritten =
      reply (bytes, daytime) ++ drop (length (reply (bytes, daytime))) (received bytes c.buffer)

  copy_cases :
      copy_over (reply (bytes, daytime)) (received bytes c.buffer)
      ≡ (if fits (bytes, daytime) then some overwritten else none)
  unfolding copy_over
  copy_cases = ground (arith, length-reply bytes daytime, length-over bytes c.buffer (omega arith))

  length-overwritten : fits (bytes, daytime) ≡ true → length overwritten ≡ data_size
  length-overwritten f =
      let whole : length (received bytes c.buffer) ≡ length c.buffer =
        length-over bytes c.buffer (omega arith) in
      let room : length (reply (bytes, daytime)) ≤ length (received bytes c.buffer) =
        ground (arith, length-reply bytes daytime) in
      length-over (reply (bytes, daytime)) (received bytes c.buffer) room ∙ whole ∙ size

  read_in_place : on_read do_write_in_place false bytes daytime (on_written false c) ≡ (
      if fits (bytes, daytime)
      then some (record { buffer = overwritten; pending = writing (reply (bytes, daytime)) })
      else none)
  unfolding on_read on_written do_write_in_place
  read_in_place =
      ap (λ t. write_from (length t) (copy_over t (received bytes c.buffer)))
        (response_lem bytes daytime c.buffer)
      ∙ ap (write_from (length (reply (bytes, daytime)))) copy_cases
      ∙ write_from_if (fits (bytes, daytime)) (reply (bytes, daytime))
          (drop (length (reply (bytes, daytime))) (received bytes c.buffer))

-- The server whose answers have their own buffer answers every round, with the bytes that the read
-- brought and the round's daytime text.
pub answers-shared :
    (rs : List Round) (c : Connection)
    → length c.buffer ≡ data_size
    → All Readable rs
    → answers do_write_shared c rs ≡ some (map reply rs)
unfolding answers
answers-shared [] c size h = refl
answers-shared ((bytes, daytime) ∷ rs) c size h =
    let rest =
      answers-shared rs
        (record { buffer = received bytes c.buffer; pending = writing (reply (bytes, daytime)) })
        (length-over bytes c.buffer (omega arith) ∙ size) h.1 in
    rw (read_shared c bytes daytime size h.0, answers) (rw rest)

-- The server that writes an answer over `data_` sends the same answers where each of them fits in
-- the 1024 bytes; where one does not, it writes past the array's end.
pub answers-in_place :
    (rs : List Round) (c : Connection)
    → length c.buffer ≡ data_size
    → All Readable rs
    → answers do_write_in_place c rs ≡ (if all_fit rs then some (map reply rs) else none)
unfolding answers
answers-in_place [] c size h = refl
answers-in_place ((bytes, daytime) ∷ rs) c size h = elim (Bool-cases (fits (bytes, daytime))) [
  | inl f ↦
      let next : Connection = record {
        buffer = overwritten c bytes daytime size h.0;
        pending = writing (reply (bytes, daytime));
      } in
      let read = read_in_place c bytes daytime size h.0 in
      let rest = answers-in_place rs next (length-overwritten c bytes daytime size h.0 f) h.1 in
      ground (arith, read, rest)
  | inr f ↦ ground (arith, read_in_place c bytes daytime size h.0)
]
