-- ===== src/Net/Messages/Limits.antt =====
-- What a parser accepts is within the limits of the protocol.
use coinbasechain.Base.{
  ℕ, zero, suc, ◌≤◌, ◌≡◌, refl, ap, Option, none, some, List, ◌∷◌, ltb, ◌==◌, not, if◌then◌else◌,
  length, arith, All, All-take, All-drop, if_elim, Option_elim, subst,
}
use coinbasechain.Base.Endian.{IsByte}
use coinbasechain.Chain.Header.{BlockHeader, IsHeader, deserialize, header_size}
use coinbasechain.Chain.Header.RoundTrip.{serialize-deserialize}
use coinbasechain.Net.Wire.{
  Deserializer, new_deserializer, check_available, read_varint, read_bytes, decode_varint, max_size,
}
use coinbasechain.Net.Messages.{
  read_loop, read_counted, header_step, deserialize_headers, max_headers_size,
}

-- Of a result that is there: its value has a property, and the reader is still among bytes.
abbrev Yields : (A : Type 0) → (A → Type 0) → Option (A × Deserializer) → Type 0
Yields A P none = Unit
Yields A P (some (x, d)) = P x × All IsByte d.rest

abbrev Accepts : (A : Type 0) → (A → Type 0) → Option A → Type 0
Accepts A P none = Unit
Accepts A P (some x) = P x

check_available-bytes :
    (n : ℕ) (d : Deserializer) → All IsByte d.rest → All IsByte (check_available n d).rest
unfolding check_available
check_available-bytes n d b =
    if_elim {A = Deserializer} (λ c. All IsByte c.rest) _ (λ h. b) (λ h. b)

read_varint-bytes : (d : Deserializer) → All IsByte d.rest → All IsByte (read_varint d).1.rest
unfolding read_varint
read_varint-bytes d b =
    let c = check_available 1 d in
    let kept : All IsByte c.rest = check_available-bytes 1 d b in
    if_elim Among c.error (λ h. kept)
      λ h.
        Option_elim Among (decode_varint c.rest) (λ h. kept)
          λ r h. if_elim Among (ltb max_size r.0) (λ h. kept) (λ h. All-drop IsByte r.1 c.rest kept)
  where
    Among : ℕ × Deserializer → Type 0
    Among r = All IsByte r.1.rest

read_bytes-bytes :
    (n : ℕ) (d : Deserializer)
    → All IsByte d.rest
    → All IsByte (read_bytes n d).0 × All IsByte (read_bytes n d).1.rest
unfolding read_bytes
read_bytes-bytes n d b =
    let c = check_available n d in
    let kept : All IsByte c.rest = check_available-bytes n d b in
    if_elim {A = List ℕ × Deserializer} (λ r. All IsByte r.0 × All IsByte r.1.rest) c.error
      (λ h. (tt, kept)) (λ h. (All-take IsByte n c.rest kept, All-drop IsByte n c.rest kept))

module _ {A : Type 0} (P : A → Type 0) (step : Deserializer → Option (A × Deserializer)) where
  module _ (sound : (d : Deserializer) → All IsByte d.rest → Yields A P (step d)) where
    abbrev Counted : ℕ → List A → Type 0
    Counted n xs = (length xs ≡ n) × All P xs

    read_loop-Yields :
        (count : ℕ) (d : Deserializer)
        → All IsByte d.rest
        → Yields (List A) (Counted count) (read_loop step count d)
    unfolding read_loop
    read_loop-Yields zero d b = (((refl, tt)), b)
    read_loop-Yields (suc count) d b =
        entry (λ d' bytes. read_loop-Yields count d' bytes) (step d) (sound d b)
      where
        rest :
            (x : A) (px : P x) (o : Option (List A × Deserializer))
            → Yields (List A) (Counted count) o
            → Yields
                (List A)
                (Counted (suc count))
                (elim o [ none ↦ none | some (xs, d'') ↦ some (x ∷ xs, d'') ])
        rest x px none y = tt
        rest x px (some (xs, d'')) ((n, all), bytes) = (((ap suc n, (px, all))), bytes)

        entry :
            ((d' : Deserializer)
              → All IsByte d'.rest
              → Yields (List A) (Counted count) (read_loop step count d'))
            → (o : Option (A × Deserializer)) → Yields A P o
            → Yields (List A) (Counted (suc count)) (elim o [
              | none ↦ none
              | some (x, d') ↦ elim (read_loop step count d') [
                | none ↦ none
                | some (xs, d'') ↦ some (x ∷ xs, d'')
              ]
            ])
        entry ih none y = tt
        entry ih (some (x, d')) (px, bytes) = rest x px (read_loop step count d') (ih d' bytes)

    read_counted-Accepts :
        (limit : ℕ) (d : Deserializer)
        → All IsByte d.rest
        → Accepts (List A) (λ xs. (length xs ≤ limit) × All P xs) (read_counted step limit d)
    unfolding read_counted
    read_counted-Accepts limit d b =
        if_elim (Accepts (List A) (λ xs. (length xs ≤ limit) × All P xs))
          (ltb limit (read_varint d).0) (λ h. tt)
          λ few.
            last (read_loop step (read_varint d).0 (read_varint d).1)
              (read_loop-Yields (read_varint d).0 (read_varint d).1 (read_varint-bytes d b))
              (ground arith)
      where
        last :
            (o : Option (List A × Deserializer))
            → Yields (List A) (Counted (read_varint d).0) o
            → (read_varint d).0 ≤ limit
            → Accepts
                (List A)
                (λ xs. (length xs ≤ limit) × All P xs)
                (elim o [ none ↦ none | some (xs, d'') ↦ if d''.error then none else some xs ])
        last none y few = tt
        last (some (xs, d'')) ((n, all), bytes) few =
            if_elim (Accepts (List A) (λ xs. (length xs ≤ limit) × All P xs)) d''.error (λ h. tt)
              (λ h. (omega arith, all))

header_step-Yields :
    (d : Deserializer) → All IsByte d.rest → Yields BlockHeader IsHeader (header_step d)
unfolding header_step
header_step-Yields d b =
    let r = read_bytes header_size d in
    let kept : All IsByte r.0 × All IsByte r.1.rest = read_bytes-bytes header_size d b in
    if_elim (Yields BlockHeader IsHeader) (not (length r.0 == header_size)) (λ h. tt)
      λ h.
        Option_elim (Yields BlockHeader IsHeader) (deserialize r.0 (length r.0)) (λ e. tt)
          (λ x e. ((serialize-deserialize r.0 x kept.0 e).0, kept.1))

accepted : {A : Type 0} (P : A → Type 0) (o : Option A) (x : A) → Accepts A P o → o ≡ some x → P x
accepted P none x h e = cc
accepted P (some y) x h e = let q : y ≡ x = cc in subst P q h

-- Whatever bytes come in, a HEADERS message that is accepted has at most 2000 headers, and each
-- has fields of the sizes of their types.
pub deserialize_headers_limit :
    (bytes : List ℕ) (xs : List BlockHeader)
    → All IsByte bytes
    → deserialize_headers bytes ≡ some xs
    → (length xs ≤ max_headers_size) × All IsHeader xs
unfolding deserialize_headers new_deserializer
deserialize_headers_limit bytes xs b e =
    accepted (λ xs. (length xs ≤ max_headers_size) × All IsHeader xs) (deserialize_headers bytes) xs
      (read_counted-Accepts IsHeader header_step header_step-Yields max_headers_size
        (new_deserializer bytes) b)
      e
