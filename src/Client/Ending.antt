-- ===== src/Client/Ending.antt =====
-- Each round of the loop of src/client_gui.rs takes the bytes of a message from the stream.
use boo.Base.{
  ℕ, zero, suc, ◌+◌, ◌≤◌, ◌≡◌, ap, inl, inr, ◌&&◌, ◌==◌, Option, none, some, List, [], ◌∷◌, length,
  get_or, ltb, arith, Option-cases, Bool-cases,
}
use boo.Wire.{MessageType, try_from}
use boo.Wire.Frames.{
  ReadResult, message, failed, read_exact, read_payload, read_message, from_le_bytes,
  unexpected_eof, unknown_message,
}
use boo.Client.State.{LocalStreamEvent, disconnected_event}
use boo.Client.Reading.{Readers, with_event, stream_event, read_local_stream_loop}

-- how many bytes were there at least, by what is left of them
abbrev counted : ℕ → Option (List ℕ × List ℕ) → ℕ
counted n none = 0
counted n (some (bytes, rest)) = length rest + n

counted-suc :
    (n b : ℕ) (o : Option (List ℕ × List ℕ))
    → counted (suc n) (elim o [ none ↦ none | some (bytes, rest) ↦ some (b ∷ bytes, rest) ])
      ≤ suc (counted n o)
counted-suc n b none = omega arith
counted-suc n b (some (bytes, rest)) = omega arith

counted-read_exact : (n : ℕ) (stream : List ℕ) → counted n (read_exact n stream) ≤ length stream
counted-read_exact zero stream = omega arith
counted-read_exact (suc n) [] = omega arith
counted-read_exact (suc n) (b ∷ stream) =
    omega (arith, counted-suc n b (read_exact n stream), counted-read_exact n stream)

abbrev consumed : ReadResult → ℕ
consumed (message ty payload rest) = suc (length rest)
consumed (failed error) = 0

consumed-payload :
    (ty : MessageType) (n : ℕ) (o : Option (List ℕ × List ℕ))
    → consumed
        (elim o [ none ↦ failed unexpected_eof | some (payload, rest) ↦ message ty payload rest ])
      ≤ suc (counted n o)
consumed-payload ty n none = omega arith
consumed-payload ty n (some (payload, rest)) = omega arith

consumed-read_payload :
    (ty : MessageType) (n : ℕ) (stream : List ℕ)
    → consumed (read_payload ty n stream) ≤ suc (length stream)
unfolding read_payload
consumed-read_payload ty n stream = elim (Bool-cases (ltb 0 n)) [
  | inl some_bytes ↦
      rw some_bytes
        (omega (arith, consumed-payload ty n (read_exact n stream), counted-read_exact n stream))
  | inr no_bytes ↦ rw no_bytes (omega arith)
]

consumed-type :
    (o : Option MessageType) (n : ℕ) (stream : List ℕ)
    → consumed (elim o [ none ↦ failed unknown_message | some ty ↦ read_payload ty n stream ])
      ≤ suc (length stream)
consumed-type none n stream = omega arith
consumed-type (some ty) n stream = consumed-read_payload ty n stream

pub consumed-read_message : (stream : List ℕ) → consumed (read_message stream) ≤ length stream
unfolding read_message
consumed-read_message stream = elim (Option-cases (read_exact 7 stream)) [
  | inl e ↦ rw (e, read_message) (omega arith)
  | inr ((header, rest), e) ↦
      let counted_all : counted 7 (read_exact 7 stream) ≡ length rest + 7 = ap (counted 7) e in
      let later =
        consumed-type (try_from (get_or header 2 0))
          (from_le_bytes
            (get_or header 3 0 ∷ get_or header 4 0 ∷ get_or header 5 0 ∷ get_or header 6 0 ∷ []))
          rest in
      let size = counted-read_exact 7 stream in
      elim (Bool-cases (get_or header 0 0 == 0x47 && get_or header 1 0 == 0x53)) [
        | inl magic ↦ rw (e, read_message) (rw magic (omega (arith, later, size, counted_all)))
        | inr other ↦ rw (e, read_message) (rw other (omega arith))
      ]
]

-- one round of the loop, for the outcome of the reader
abbrev round : Readers → ℕ → ReadResult → List LocalStreamEvent
round readers fuel (failed error) = disconnected_event ∷ []
round readers fuel (message ty payload rest) =
    with_event (stream_event readers ty payload) (read_local_stream_loop readers fuel rest)
