-- ===== src/Setup/Fetch/Bounds.antt =====
-- What a download returns: at most the limit, as many bytes as announced, from one attempt.
use Prim.Native.Nat.{min}
use see_size.Base.{
  ℕ, zero, suc, Bool, false, not, is_some, ◌+◌, ◌-◌, ◌*◌, ◌≤◌, ◌<◌, ◌==◌, nat_eq, ◌≡◌, refl, ◌≢◌,
  inl, inr, true, Option, none, some, List, [], ◌∷◌, ◌++◌, leb, length, length-append, take, drop,
  Bool-cases, arith,
}
use mathlib.Core.List.{append_assoc, append-nil}
use mathlib.Core.Path.{sym, ap, ◌∙◌}
use see_size.Fs.{Bytes}
use see_size.Script.{Trouble, Length, Attempt, refused, answered}
use see_size.Setup.Fetch.{
  read1, Received, whole, over_limit, unfinished, cut, receive, try_once, on_trouble, got,
  on_received, expects,
}

length-take : (n : ℕ) (s : Bytes) → length (take n s) ≤ n
length-take zero s = omega arith
length-take (suc n) [] = omega arith
length-take (suc n) (x ∷ s) = omega (arith, length-take n s)

-- The loop over a response does not run out of its fuel, where the fuel and the bytes received so far
-- make more than the limit and one, and those bytes are within the limit.
pub receive-ne-unfinished :
    (fuel limit : ℕ) (ending : Option Trouble) (chunks : List Bytes) (body : Bytes)
    → length body ≤ limit
    → limit + 1 < fuel + length body
    → receive fuel limit ending chunks body ≢ unfinished
unfolding receive
receive-ne-unfinished zero limit ending chunks body h k = absurd (omega arith)
receive-ne-unfinished (suc fuel) limit none [] body h k = λ e. cc
receive-ne-unfinished (suc fuel) limit (some t) [] body h k = λ e. cc
receive-ne-unfinished (suc fuel) limit ending (c ∷ cs) body h k =
    let n = min (64 * 1024) (limit + 1 - length body) in
    let (chunk, rest) = read1 n (c ∷ cs) in
    ground (
      arith,
      length-append body chunk,
      receive-ne-unfinished fuel limit ending rest (body ++ chunk),
    )

dropped : (n : ℕ) (c : Bytes) → n < length c → 0 < length (drop n c)
dropped zero c h = h
dropped (suc n) [] h = absurd (omega arith)
dropped (suc n) (x ∷ c) h = dropped n c (omega arith)

take-append-drop : (n : ℕ) (s : Bytes) → take n s ++ drop n s ≡ s
take-append-drop zero s = refl
take-append-drop (suc n) [] = refl
take-append-drop (suc n) (x ∷ s) = cc (take-append-drop n s)

take_all : (n : ℕ) (s : Bytes) → length s ≤ n → take n s ≡ s
take_all zero [] h = refl
take_all zero (x ∷ s) h = absurd (omega arith)
take_all (suc n) [] h = refl
take_all (suc n) (x ∷ s) h = cc (take_all n s (omega arith))

-- The bytes of a stream, up to its end: an empty read is the end of the body.
unfoldable pub content : List Bytes → Bytes
content [] = []
content ([] ∷ cs) = []
content ((x ∷ c) ∷ cs) = (x ∷ c) ++ content cs

-- The body has an end in the stream, which no trouble cuts off.
unfoldable pub ends : List Bytes → Option Trouble → Bool
ends [] ending = not (is_some ending)
ends ([] ∷ cs) ending = true
ends ((x ∷ c) ∷ cs) ending = ends cs ending

content-full :
    (d : Bytes) (cs : List Bytes) (ending : Option Trouble)
    → 0 < length d
    → (content (d ∷ cs) ≡ d ++ content cs) × (ends (d ∷ cs) ending ≡ ends cs ending)
unfolding content ends
content-full [] cs ending h = absurd (omega arith)
content-full (x ∷ d) cs ending h = (refl, refl)

-- A read that is not empty takes bytes off the stream's front.
read1_rest :
    (n : ℕ) (c : Bytes) (cs : List Bytes) (ending : Option Trouble)
    → (length (read1 n (c ∷ cs)).0 == 0) ≡ false
    → (content (c ∷ cs) ≡ (read1 n (c ∷ cs)).0 ++ content (read1 n (c ∷ cs)).1)
      × (ends (c ∷ cs) ending ≡ ends (read1 n (c ∷ cs)).1 ending)
unfolding read1
read1_rest zero c cs ending h = absurd (ground (arith, h))
read1_rest (suc n) [] cs ending h = absurd (ground (arith, h))
read1_rest (suc n) (x ∷ c) cs ending h = elim (Bool-cases (leb (length (x ∷ c)) (suc n))) [
  | inl fits ↦
      rw fits (rw (take_all n c (ground arith)) (content-full (x ∷ c) cs ending (omega arith)))
  | inr more ↦
      let left = content-full (drop n c) cs ending (ground (arith, dropped n c)) in
      let all = content-full (x ∷ c) cs ending (omega arith) in
      rw more (
        all.0
            ∙ ap (λ s. (x ∷ s) ++ content cs) (sym (take-append-drop n c))
            ∙ append_assoc (x ∷ take n c) (drop n c) (content cs)
            ∙ ap (λ s. (x ∷ take n c) ++ s) (sym left.0),
        all.1 ∙ sym left.1,
      )
]

-- A read of some bytes that gives none is at the end.
read1_end :
    (n : ℕ) (c : Bytes) (cs : List Bytes)
    → 0 < n
    → (length (read1 n (c ∷ cs)).0 == 0) ≡ true
    → c ≡ []
unfolding read1
read1_end zero c cs pos h = absurd (omega arith)
read1_end (suc n) [] cs pos h = refl
read1_end (suc n) (x ∷ c) cs pos h = absurd (ground (arith, h))

record Read (ending : Option Trouble) (chunks : List Bytes) (before after : Bytes) : Type 0 where
  after_eq : after ≡ before ++ content chunks
  closed : ends chunks ending ≡ true

-- The loop is at the end of the stream.
at_the_end :
    (ending : Option Trouble) (chunks : List Bytes) (body result : Bytes)
    → (content chunks ≡ []) × (ends chunks ending ≡ true)
    → whole body ≡ whole result
    → Read ending chunks body result
at_the_end ending chunks body result (front, close) e = record {
  after_eq = rw front (rw append-nil (cc));
  closed = close;
}

receive-Read :
    (fuel limit : ℕ) (ending : Option Trouble) (chunks : List Bytes) (body result : Bytes)
    → length body ≤ limit
    → receive fuel limit ending chunks body ≡ whole result
    → Read ending chunks body result × (length result ≤ limit)
unfolding receive content ends
receive-Read zero limit ending chunks body result h e = cc
receive-Read (suc fuel) limit none [] body result h e =
    (at_the_end none [] body result (refl, refl) e, ground arith)
receive-Read (suc fuel) limit (some t) [] body result h e = cc
receive-Read (suc fuel) limit ending (c ∷ cs) body result h e =
    let n = min (64 * 1024) (limit + 1 - length body) in
    let p = read1 n (c ∷ cs) in
    elim (Bool-cases (length p.0 == 0)) [
      | inl stop ↦
          let empty : c ≡ [] = read1_end n c cs (omega arith) stop in
          (
            at_the_end ending (c ∷ cs) body result (rw empty (refl, refl)) (ground arith),
            ground arith,
          )
      | inr more ↦
          let ih =
            receive-Read fuel limit ending p.1 (body ++ p.0) result (ground arith) (ground arith) in
          let (front, close) = read1_rest n c cs ending more in
          (
            record {
              after_eq =
                  ih.0.after_eq
                  ∙ append_assoc body p.0 (content p.1)
                  ∙ ap (λ s. body ++ s) (sym front);
              closed = close ∙ ih.0.closed;
            },
            ih.1,
          )
    ]

-- What a successful attempt says of its bytes.
pub record Delivered (limit : ℕ) (a : Attempt) (body : Bytes) : Type 0 where
  pub header : Length
  pub chunks : List Bytes
  pub ending : Option Trouble
  pub answer : a ≡ answered header chunks ending
  pub complete : body ≡ content chunks
  pub closed : ends chunks ending ≡ true
  pub within : length body ≤ limit
  pub announced : expects header (length body) ≡ true

pub try_once-Delivered :
    (limit : ℕ) (a : Attempt) (body : Bytes) → try_once limit a ≡ got body → Delivered limit a body
unfolding try_once on_trouble on_received
try_once-Delivered limit (refused t) body h = ground arith
try_once-Delivered limit (answered header chunks ending) body h =
    go (receive (limit + 2) limit ending chunks []) refl (ground arith)
  where
    go :
        (r : Received)
        → receive (limit + 2) limit ending chunks [] ≡ r
        → on_received header r ≡ got body
        → Delivered limit (answered header chunks ending) body
    go (whole result) e k =
        let (b, fits) = receive-Read (limit + 2) limit ending chunks [] result (omega arith) e in
        let same : result ≡ body = ground arith in
        record {
          header = header;
          chunks = chunks;
          ending = ending;
          answer = refl;
          complete = sym same ∙ b.after_eq;
          closed = b.closed;
          within = rw same at fits;
          announced = ground arith;
        }
    go over_limit e k = cc
    go unfinished e k = ground arith
    go (cut t) e k = ground arith
