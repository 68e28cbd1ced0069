-- ===== src/PublicIp/Http.antt =====
-- The text that `get_public_ip_http` returns.
use sending_system.Base.{
  ℕ, ◌≡◌, ◌≢◌, ◌∙◌, ◌==◌, refl, ap, sym, Bool, true, ◌&&◌, none, some, List, [], ◌∷◌, ◌++◌, arith,
  Bytes, All, All-append, c_string, take, length, length-append, if◌then◌else◌, Bool-cases, inl,
  inr,
}
use mathlib.Core.List.{append_assoc, append-nil}
use sending_system.System.{World, ask, emit, acquire, release, buffer, curl}
use sending_system.PublicIp.{
  Curl, strlen, byte_at, write_cb, trim_loop, receive_all, trimmed, settle, fetch,
  get_public_ip_http,
}
use sending_system.PublicIp.Trim.{rtrim, NonZero, trim_loop-rtrim}

unfoldable pub joined : List Bytes → Bytes
joined [] = []
joined (piece ∷ pieces) = piece ++ joined pieces

-- A string and its terminator.
terminated : (s : Bytes) → NonZero s → c_string (s ++ (0 ∷ [])) ≡ some s
unfolding c_string
terminated [] nz = refl
terminated (c ∷ s) (nc, nz) = ground (arith, terminated s nz)

strlen-append : (s : Bytes) → NonZero s → strlen (s ++ (0 ∷ [])) ≡ length s
unfolding strlen
strlen-append s nz = rw (terminated s nz) refl

take_append : (s t : Bytes) → take (length s) (s ++ t) ≡ s
take_append [] t = refl
take_append (c ∷ s) t = ap (λ l. c ∷ l) (take_append s t)

byte_at-append : (s : Bytes) → byte_at (s ++ (0 ∷ [])) (length s) ≡ 0
unfolding byte_at
byte_at-append [] = refl
byte_at-append (c ∷ s) = byte_at-append s

joined-NonZero : (pieces : List Bytes) → All NonZero pieces → NonZero (joined pieces)
unfolding joined
joined-NonZero [] nz = tt
joined-NonZero (piece ∷ pieces) (np, nz) =
    All-append (λ c. c ≢ 0) piece (joined pieces) np (joined-NonZero pieces nz)

-- The callback puts the piece behind the string.
write_cb-append :
    (s piece : Bytes)
    → NonZero s
    → write_cb true (s ++ (0 ∷ [])) piece ≡ (length piece, (s ++ piece) ++ (0 ∷ []))
unfolding write_cb
write_cb-append s piece nz =
    rw (strlen-append s nz, take_append s (0 ∷ []))
      (ap (λ l. (length piece, l)) (sym (append_assoc s piece (0 ∷ []))))

module _ {Db : Type 0} (malloc : ℕ → Bool) (healthy : (n : ℕ) → malloc n ≡ true) where
  receive_all-joined :
      (pieces : List Bytes) (s : Bytes) (w : World Db)
      → NonZero s
      → All NonZero pieces
      → (receive_all malloc pieces (s ++ (0 ∷ [])) w).0 ≡ (true, (s ++ joined pieces) ++ (0 ∷ []))
  unfolding receive_all joined
  receive_all-joined [] s w ns nz = ap (λ l. (true, l ++ (0 ∷ []))) (sym (append-nil s))
  receive_all-joined (piece ∷ pieces) s w ns (np, nz) =
      let taken : write_cb (malloc w.calls) (s ++ (0 ∷ [])) piece
          ≡ (length piece, (s ++ piece) ++ (0 ∷ [])) =
        ap (λ grown. write_cb grown (s ++ (0 ∷ [])) piece) (healthy w.calls)
        ∙ write_cb-append s piece ns in
      let whole : (length piece == length piece) ≡ true = ground arith in
      rw (taken, whole)
        (receive_all-joined pieces (s ++ piece) (ask malloc w).1
            (All-append (λ c. c ≢ 0) s piece ns np) nz
          ∙ ap (λ l. (true, l ++ (0 ∷ []))) (append_assoc s piece (joined pieces)))

  trimmed-rtrim :
      (s : Bytes) (w : World Db)
      → NonZero s
      → (trimmed malloc (s ++ (0 ∷ [])) w).0
        ≡ (if length (rtrim s) == 0 then none else some (rtrim s))
  unfolding trimmed
  trimmed-rtrim s w nz =
      let block = s ++ (0 ∷ []) in
      let whole : take (length s) block ≡ s = take_append s (0 ∷ []) in
      let (n, text) =
        trim_loop-rtrim (length s) block (rw (whole) nz) (omega (arith, length-append s (0 ∷ [])))
          (byte_at-append s) in
      let n1 : (trim_loop (length s) block).0 ≡ length (rtrim s) =
        n ∙ ap (λ l. length (rtrim l)) whole in
      let text1 : c_string (trim_loop (length s) block).1 ≡ some (rtrim s) =
        text ∙ ap (λ l. some (rtrim l)) whole in
      elim (Bool-cases (length (rtrim s) == 0)) [
        | inl empty ↦ rw (strlen-append s nz, n1, empty) refl
        | inr more ↦ rw (strlen-append s nz, n1, more, text1) refl
      ]

  -- Once the pieces were delivered.
  settle-joined :
      (c : Curl) (pieces : List Bytes) (w : World Db)
      → All NonZero pieces
      → ((n : ℕ) → c.transferred n ≡ true)
      → let (outcome, w1) = receive_all malloc pieces (0 ∷ []) w in
        let text = rtrim (joined pieces) in
        (settle malloc
          (outcome.0 && c.transferred w1.calls)
          outcome.1
          (emit (release curl) (ask c.transferred w1).1)).0
        ≡ (if length text == 0 then none else some text)
  unfolding settle
  settle-joined c pieces w nz done =
      let (outcome, w1) = receive_all malloc pieces (0 ∷ []) w in
      rw (receive_all-joined pieces [] w tt nz, done w1.calls)
        (trimmed-rtrim (joined pieces) (emit (release curl) (ask c.transferred w1).1)
          (joined-NonZero pieces nz))

  fetch-rtrim :
      (c : Curl) (pieces : List Bytes) (w : World Db)
      → All NonZero pieces
      → ((n : ℕ) → c.pieces n ≡ pieces)
      → ((n : ℕ) → c.transferred n ≡ true)
      → let text = rtrim (joined pieces) in
        (fetch malloc c w).0 ≡ (if length text == 0 then none else some text)
  unfolding fetch
  fetch-rtrim c pieces w nz delivered done =
      let w1 : World Db = emit (acquire buffer) (ask malloc w).1 in
      rw (healthy w.calls, delivered w1.calls) (settle-joined c pieces (ask c.pieces w1).1 nz done)

  -- Where no allocation, no handle and no transfer fails, and the pieces of the body have no NUL,
  -- `get_public_ip_http` returns their concatenation without the blanks at its end, and NULL exactly
  -- if nothing is left of it.
  pub get_public_ip_http-rtrim :
      (c : Curl) (pieces : List Bytes) (w : World Db)
      → All NonZero pieces
      → ((n : ℕ) → c.curl_easy_init n ≡ true)
      → ((n : ℕ) → c.pieces n ≡ pieces)
      → ((n : ℕ) → c.transferred n ≡ true)
      → let text = rtrim (joined pieces) in
        (get_public_ip_http malloc c w).0 ≡ (if length text == 0 then none else some text)
  unfolding get_public_ip_http
  get_public_ip_http-rtrim c pieces w nz made delivered done =
      rw (made w.calls)
        (fetch-rtrim c pieces (emit (acquire curl) (ask c.curl_easy_init w).1) nz delivered done)
