-- ===== src/Stratum/Lines.antt =====
-- read_line_status and send_line of pearl_stratum_client.cpp. What poll and recv give is a sequence
-- of events: bytes that arrive in time, the end of the waiting time, and the end of the connection.
use prop_miner.Base.{
  ℕ, ◌≡◌, refl, ap, ◌∙◌, sym, inl, inr, true, false, Bool-cases, ◌==◌, ==_iff, if◌then◌else◌,
  Option, Option-cases, none, some, List, [], ◌∷◌, ◌++◌, append_assoc, append-nil, All, map,
}

pub data Received : Type 0 where
  bytes : List ℕ → Received
  no_more_time : Received
  end_of_stream : Received

pub data ReadStatus : Type 0 where
  line_read timeout closed : ReadStatus

-- The text before the first line end, and the text behind it.
unfoldable pub find_line : List ℕ → Option (List ℕ × List ℕ)
find_line [] = none
find_line (c ∷ cs) = elim (c == 10) [
  | true ↦ some ([], cs)
  | false ↦ elim (find_line cs) [ none ↦ none | some (l, rest) ↦ some (c ∷ l, rest) ]
]

-- A carriage return at the end of a line is taken off.
unfoldable pub pop_return : List ℕ → List ℕ
pop_return [] = []
pop_return (c ∷ []) = if c == 13 then [] else c ∷ []
pop_return (c ∷ d ∷ cs) = c ∷ pop_return (d ∷ cs)

-- What a read gives: the status, the line, the buffer and the events that are left.
pub record ReadResult : Type 0 where
  pub status : ReadStatus
  pub out : List ℕ
  pub recv_buf : List ℕ
  pub coming : List Received

unfoldable pub read_line_status : List ℕ → List Received → ReadResult
read_line_status buf [] = elim (find_line buf) [
  | some (l, rest) ↦ record { status = line_read; out = pop_return l; recv_buf = rest; coming = [] }
  | none ↦ record { status = timeout; out = []; recv_buf = buf; coming = [] }
]
read_line_status buf (e ∷ es) = elim (find_line buf) [
  | some (l, rest) ↦ record {
    status = line_read;
    out = pop_return l;
    recv_buf = rest;
    coming = e ∷ es;
  }
  | none ↦ elim e [
    | bytes cs ↦ read_line_status (buf ++ cs) es
    | no_more_time ↦ record { status = timeout; out = []; recv_buf = buf; coming = es }
    | end_of_stream ↦ record { status = closed; out = []; recv_buf = buf; coming = es }
  ]
]

-- The bytes of the pieces, in order.
unfoldable pub joined : List (List ℕ) → List ℕ
joined [] = []
joined (p ∷ ps) = p ++ joined ps

-- No line end among the bytes.
abbrev pub HasNoEnd : List ℕ → Type 0
HasNoEnd = All (λ c. (c == 10) ≡ false)

find_line-append : (l rest : List ℕ) → HasNoEnd l → find_line (l ++ (10 ∷ rest)) ≡ some (l, rest)
unfolding find_line
find_line-append [] rest h = refl
find_line-append (c ∷ l) rest h = rw (h.0, find_line, find_line-append l rest h.1) refl

pairs_same :
    (a a' b b' : List ℕ)
    → ◌≡◌ {A = Option (List ℕ × List ℕ)} (some (a, b)) (some (a', b'))
    → (a ≡ a') × (b ≡ b')
pairs_same a a' b b' h = (cc, cc)

find_line-parts :
    (buf l rest : List ℕ) → find_line buf ≡ some (l, rest) → (buf ≡ l ++ (10 ∷ rest)) × HasNoEnd l
unfolding find_line
find_line-parts [] l rest h = cc
find_line-parts (c ∷ cs) l rest h = elim (Bool-cases (c == 10)) [
  | inl e ↦
      let found : some ([], cs) ≡ some (l, rest) = sym (rw (e, find_line) refl) ∙ h in
      let (e_l, e_rest) = pairs_same [] l cs rest found in
      rw (sym e_l, sym e_rest, (==_iff c 10).0 e) (refl, tt)
  | inr e ↦ elim (Option-cases (find_line cs)) [
    | inl none_there ↦
        let found : none ≡ some (l, rest) = sym (rw (e, find_line, none_there) refl) ∙ h in
        absurd (cc found)
    | inr ((l', rest'), there) ↦
        let found : some (c ∷ l', rest') ≡ some (l, rest) =
          sym (rw (e, find_line, there) refl) ∙ h in
        let (e_l, e_rest) = pairs_same (c ∷ l') l rest' rest found in
        let ih = find_line-parts cs l' rest' there in
        rw (sym e_l, sym e_rest) (ap (◌∷◌ c) ih.0, (e, ih.1))
  ]
]

-- A line end that is found stays where it is when more bytes arrive.
find_line-more :
    (buf more l rest : List ℕ)
    → find_line buf ≡ some (l, rest)
    → find_line (buf ++ more) ≡ some (l, rest ++ more)
find_line-more buf more l rest h =
    let (e, no_end) = find_line-parts buf l rest h in
    ap (λ b. find_line (b ++ more)) e
    ∙ ap find_line (append_assoc l (10 ∷ rest) more)
    ∙ find_line-append l (rest ++ more) no_end

read_found :
    (buf l rest : List ℕ) (es : List Received)
    → find_line buf ≡ some (l, rest)
    → read_line_status buf es
      ≡ record { status = line_read; out = pop_return l; recv_buf = rest; coming = es }
unfolding read_line_status
read_found buf l rest [] h = rw (h, read_line_status) refl
read_found buf l rest (e ∷ es) h = rw (h, read_line_status) refl

read_more :
    (buf cs : List ℕ) (es : List Received)
    → find_line buf ≡ none
    → read_line_status buf (bytes cs ∷ es) ≡ read_line_status (buf ++ cs) es
unfolding read_line_status
read_more buf cs es h = rw (h, read_line_status) refl

-- A line arrives whole, however its bytes are cut into pieces: the line is what stands before the
-- first line end, without a carriage return, and what stands behind it is still to be read, from the
-- buffer or from the pieces that are left.
pub read_line_status-pieces :
    (buf : List ℕ) (ps : List (List ℕ)) (tail : List Received) (l rest : List ℕ)
    → HasNoEnd l
    → buf ++ joined ps ≡ l ++ (10 ∷ rest)
    → (qs : List (List ℕ)) × (kept : List ℕ) × (kept ++ joined qs ≡ rest)
      × (read_line_status buf (map bytes ps ++ tail) ≡ record {
        status = line_read;
        out = pop_return l;
        recv_buf = kept;
        coming = map bytes qs ++ tail;
      })
unfolding joined
read_line_status-pieces buf [] tail l rest no_end e =
    let found : find_line buf ≡ some (l, rest) =
      ap find_line (sym (append-nil buf) ∙ e) ∙ find_line-append l rest no_end in
    ([], rest, append-nil rest, read_found buf l rest tail found)
read_line_status-pieces buf (p ∷ ps) tail l rest no_end e = elim (Option-cases (find_line buf)) [
  | inl none_yet ↦
      let (qs, kept, whole, read) =
        read_line_status-pieces (buf ++ p) ps tail l rest no_end
          (append_assoc buf p (joined ps) ∙ e) in
      (qs, kept, whole, read_more buf p (map bytes ps ++ tail) none_yet ∙ read)
  | inr ((l', rest'), found) ↦
      let same : some (l', rest' ++ (p ++ joined ps)) ≡ some (l, rest) =
        sym (find_line-more buf (p ++ joined ps) l' rest' found)
        ∙ ap find_line e
        ∙ find_line-append l rest no_end in
      let (e_l, e_rest) = pairs_same l' l (rest' ++ (p ++ joined ps)) rest same in
      (
        p ∷ ps,
        rest',
        e_rest,
        read_found buf l' rest' (map bytes (p ∷ ps) ++ tail) found
            ∙ ap
                (λ (t : List ℕ). record {
                  status = line_read;
                  out = pop_return t;
                  recv_buf = rest';
                  coming = map bytes (p ∷ ps) ++ tail;
                })
                e_l,
      )
]
