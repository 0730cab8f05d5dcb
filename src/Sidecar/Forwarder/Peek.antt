-- ===== src/Sidecar/Forwarder/Peek.antt =====
-- What a Peek leaves of the client's stream.
use text.Mathlib.TextLemmas.{nil-append, cons-append, append_assoc}
use service_mesh.Base.{
  ℕ, ◌+◌, String, true, false, none, some, [], ◌∷◌, ◌≡◌, refl, ap, ◌∙◌, inl, inr, arith, leb, ◌<>◌,
  Bool-cases,
}
use service_mesh.Sidecar.Forwarder.{Reads, size, peek}

-- All that the client's reads give.
unfoldable pub stream : Reads → String
stream [] = ""
stream (none ∷ reads) = stream reads
stream (some chunk ∷ reads) = chunk <> stream reads

-- How many characters the client's reads give.
unfoldable pub total : Reads → ℕ
unfolding size
total [] = 0
total (none ∷ reads) = total reads
total (some chunk ∷ reads) = size chunk + total reads

size-append : (s t : String) → size (s <> t) ≡ size s + size t
unfolding size
size-append String.[] t = let same = ap size (nil-append t) in omega (arith, same)
size-append (String.◌∷◌ c s) t =
    let first = ap size (cons-append c s t) in
    let rest = size-append s t in omega (arith, first, rest)

-- A Peek keeps the stream: what it has read is in the buffer.
pub peek-stream :
    (n : ℕ) (buffered : String) (reads : Reads)
    → (peek n buffered reads).1 <> stream (peek n buffered reads).2 ≡ buffered <> stream reads
unfolding peek stream
peek-stream n buffered [] = refl
peek-stream n buffered (none ∷ reads) = elim (Bool-cases (leb n (size buffered))) [
  | inl enough ↦ rw (peek, enough) refl
  | inr few ↦ rw (peek, few) refl
]
peek-stream n buffered (some chunk ∷ reads) = elim (Bool-cases (leb n (size buffered))) [
  | inl enough ↦ rw (peek, enough) refl
  | inr few ↦
      rw (peek, few)
        (peek-stream n (buffered <> chunk) reads ∙ append_assoc buffered chunk (stream reads))
]

pub peek-total :
    (n : ℕ) (buffered : String) (reads : Reads)
    → size (peek n buffered reads).1 + total (peek n buffered reads).2 ≡ size buffered + total reads
unfolding peek total
peek-total n buffered [] = refl
peek-total n buffered (none ∷ reads) = elim (Bool-cases (leb n (size buffered))) [
  | inl enough ↦ rw (peek, enough) refl
  | inr few ↦ rw (peek, few) refl
]
peek-total n buffered (some chunk ∷ reads) =
    let more = peek-total n (buffered <> chunk) reads in
    let both = size-append buffered chunk in
    elim (Bool-cases (leb n (size buffered))) [
      | inl enough ↦ rw (peek, enough) refl
      | inr few ↦ rw (peek, few) (omega (arith, more, both))
    ]

-- A first read that is long enough is all that a Peek takes.
pub peek-first :
    (n : ℕ) (chunk : String) (rest : Reads)
    → leb n (size chunk) ≡ true
    → leb n 0 ≡ false
    → peek n "" (some chunk ∷ rest) ≡ (true, chunk, rest)
unfolding peek size
peek-first n chunk [] long some_n = rw (peek, some_n, nil-append chunk, peek, long) refl
peek-first n chunk (none ∷ rest) long some_n = rw (peek, some_n, nil-append chunk, peek, long) refl
peek-first n chunk (some next ∷ rest) long some_n =
    rw (peek, some_n, nil-append chunk, peek, long) refl
