-- ===== src/Http/Pieces.antt =====
-- Read of httpRangeReader in http.go, on an origin that serves a blob.
use flob.Prelude.{
  ℕ, zero, suc, ◌+◌, ◌-◌, ◌≤◌, ◌<◌, ◌≡◌, ◌≢◌, refl, sym, ap, ◌∙◌, true, false, ◌&&◌, Option, none,
  some, List, [], ◌∷◌, ◌++◌, arith, length, length-take, take, drop, min, leb, ◌==◌, is_some,
  by_test, if◌then◌else◌, Bool-cases, inl, inr,
}
use flob.Prelude.Text.{is_empty}
use flob.Errors.{Error, eof, closed, is, code}
use flob.Meta.{Source}
use flob.Mem.Staging.{Result, ok, err}
use flob.Http.Ranges.{RangeReader, strong_etag}
use flob.Http.Opening.{
  Fetch, RangeResponse, accept, target_of, condition_of, open_response, installed, settle, answered,
}
use flob.Http.Accepted.{accept_within, accept-NotEnd}
use flob.Http.Ranging.{
  Gives, end_error, piece_size, read_body, is_eof, state_error, instead, overlong, tail_error,
  at_end, finish, cut_short, boundary, overruled, take_piece, read_open, opened_read, read,
}

is-eof : (e : Error) → is e eof ≡ true → e ≡ eof
unfolding is code
is-eof Error.eof h = refl
is-eof e h = ground (arith, h)

-- The first of two lists starts the second.
abbrev pub Starts : List ℕ → List ℕ → Type 0
Starts ys xs = (zs : List ℕ) × (ys ++ zs ≡ xs)

drop-drop : (n k : ℕ) (xs : List ℕ) → drop k (drop n xs) ≡ drop (n + k) xs
drop-drop zero k xs = ap (λ m. drop m xs) {x = k} {y = 0 + k} (omega arith)
drop-drop (suc n) k [] = drop_nil k ∙ sym (drop_nil (suc n + k))
  where
    drop_nil : (m : ℕ) → drop {A = ℕ} m [] ≡ []
    drop_nil zero = refl
    drop_nil (suc m) = refl
drop-drop (suc n) k (x ∷ xs) =
    drop-drop n k xs ∙ ap (λ m. drop m (x ∷ xs)) {x = suc (n + k)} {y = suc n + k} (omega arith)

-- What starts a list is cut at a place: its first part starts the list, the other one the rest.
Starts-cut :
    (k l : ℕ) (xs d : List ℕ)
    → k ≤ l
    → k ≤ length xs
    → Starts (take l xs) d
    → Starts (take k xs) d × Starts (take (l - k) (drop k xs)) (drop k d)
Starts-cut zero l xs d h g (zs, e) =
    ((d, refl), (zs, ap (λ m. take m xs ++ zs) {x = l - 0} {y = l} (omega arith) ∙ e))
Starts-cut (suc k) l [] d h g s = absurd (omega arith)
Starts-cut (suc k) zero (x ∷ xs) d h g s = absurd (omega arith)
Starts-cut (suc k) (suc l) (x ∷ xs) [] h g (zs, e) = cc
Starts-cut (suc k) (suc l) (x ∷ xs) (y ∷ d) h g (zs, e) =
    let ((a, p), (b, q)) = Starts-cut k l xs d (omega arith) (omega arith) (zs, ap (drop 1) e) in
    (
      (a, cc (p, e)),
      (b, ap (λ m. take m (drop k xs) ++ b) {x = suc l - suc k} {y = l - k} (omega arith) ∙ q),
    )

module _ (blob : List ℕ) where
  -- What is left of an open response is, up to its last byte, the rest of the blob as far as it comes.
  abbrev pub BodyIs : RangeReader → Option Source → Type 0
  BodyIs r none = Unit
  BodyIs r (some src) =
      (r.offset ≤ r.response_end)
      × (r.response_end < r.size)
      × Starts (take (r.response_end + 1 - r.offset) src.bytes) (drop r.offset blob)

  abbrev pub IsReading : RangeReader → Type 0
  IsReading r = (r.size ≡ length blob) × (r.read_error ≢ some eof) × BodyIs r r.body

  -- What a Read answers: the next bytes, as many as it moves on by, and io.EOF at the end alone.
  abbrev pub IsPiece : RangeReader → ℕ → (List ℕ × Option Error) × RangeReader → Type 0
  IsPiece r n ((b, e), r') =
      Starts b (drop r.offset blob)
      × (r'.offset ≡ r.offset + length b)
      × (length b ≤ n)
      × IsReading r'
      × (e ≡ some eof → (b ≡ []) × (r.size ≤ r.offset))

  -- An answer without bytes that leaves the reader where it is.
  nothing :
      (r r' : RangeReader) (n : ℕ) (e : Option Error)
      → r'.offset ≡ r.offset
      → IsReading r'
      → (e ≡ some eof → r.size ≤ r.offset)
      → IsPiece r n (([], e), r')
  nothing r r' n e same reading at_end' =
      ((drop r.offset blob, refl), omega arith, omega arith, reading, λ h. (refl, at_end' h))

  -- an error that is not io.EOF, or none
  finish-IsPiece :
      (r : RangeReader) (n : ℕ) (b : List ℕ) (e : Option Error) (t : RangeReader)
      → Starts b (drop r.offset blob)
      → length b ≤ n
      → t.offset ≡ r.offset + length b
      → t.size ≡ length blob
      → t.read_error ≢ some eof
      → e ≢ some eof
      → (e ≡ none → BodyIs t t.body)
      → IsPiece r n (finish b (e, t))
  finish-IsPiece r n b none t starts short moved sized clean plain body =
      (starts, moved, short, (sized, clean, body refl), λ h. absurd (cc h))
  finish-IsPiece r n b (some e) t starts short moved sized clean plain body =
      (starts, moved, short, (sized, plain, tt), λ h. absurd (plain h))

  -- What the end of a Read is given: the reader moved on, an error that is not io.EOF, and a body that
  -- is still right where there is none.
  abbrev Ended : RangeReader → Option Error × RangeReader → Type 0
  Ended r (e, t) =
      (t.offset ≡ r.offset)
      × (t.size ≡ r.size)
      × (t.read_error ≡ r.read_error)
      × (t.closed ≡ r.closed)
      × (e ≢ some eof)
      × (e ≡ none → BodyIs t t.body)

  not_eof : (o : Option Error) → is_eof o ≡ false → o ≢ some eof
  unfolding is code
  not_eof none h k = cc k
  not_eof (some e) h k = absurd (ground (arith, h, ap is_eof k))

  tail-not_eof : (src : Source) → tail_error src ≢ some eof
  tail-not_eof src = go src.bytes
    where
      go :
          (b : List ℕ)
          → (elim b [
            | [] ↦ if is (end_error src) eof then none else some (end_error src)
            | c ∷ rest ↦ some overlong
          ])
            ≢ some eof
      go [] k = elim (Bool-cases (is (end_error src) eof)) [
        | inl same ↦ absurd (ground (arith, same, k))
        | inr differ ↦ not_eof (some (end_error src)) differ (ground (arith, differ, k))
      ]
      go (c ∷ rest) k = cc k

  at_end-Ended : (rest : Source) (e : Option Error) (r : RangeReader) → Ended r (at_end rest e r)
  at_end-Ended rest none r = (refl, refl, refl, refl, tail-not_eof rest, λ fine. tt)
  at_end-Ended rest (some e) r =
      by_test (Ended r) (is e eof) (λ end. (refl, refl, refl, refl, (λ k. cc k), λ fine. tt))
        (λ bad. (refl, refl, refl, refl, not_eof (some e) bad, λ fine. absurd (cc fine)))

  cut_short-not_eof :
      (e : Option Error) (r : RangeReader) → r.offset ≤ r.response_end → cut_short e r ≢ some eof
  cut_short-not_eof e r before =
      by_test (λ o. o ≢ some eof) (is_eof e && leb r.offset r.response_end) (λ short k. cc k)
        (λ fine. not_eof e (ground (arith, fine, before)))

  boundary-Ended :
      (rest : Source) (e : Option Error) (r : RangeReader)
      → r.offset ≤ r.response_end + 1
      → r.response_end < r.size
      → Starts (take (r.response_end + 1 - r.offset) rest.bytes) (drop r.offset blob)
      → Ended r (boundary rest (cut_short e r) r)
  boundary-Ended rest e r within inside starts =
      by_test (Ended r) (r.offset == r.response_end + 1)
        (λ end. at_end-Ended rest (cut_short e r) r)
        (λ more.
          let before : r.offset ≤ r.response_end = ground (arith, more, within) in
          (refl, refl, refl, refl, cut_short-not_eof e r before, λ fine. (before, inside, starts)))

  overruled-Ended :
      (ctx : Option Error) (r : RangeReader) (a : Option Error × RangeReader)
      → ctx ≢ some eof
      → Ended r a
      → Ended r (overruled ctx a)
  overruled-Ended ctx r (e, t) plain (offset, size, error, shut, clean, body) = (
    offset,
    size,
    error,
    shut,
    instead_clean (state_error t ctx)
        (by_test (λ o. o ≢ some eof) t.closed (λ c k. cc k) (λ c. plain)),
    λ fine. body (was_none (state_error t ctx) fine),
  )
    where
      instead_clean : (o : Option Error) → o ≢ some eof → instead o e ≢ some eof
      instead_clean none h = clean
      instead_clean (some x) h = h

      was_none : (o : Option Error) → instead o e ≡ none → e ≡ none
      was_none none h = h
      was_none (some x) h = absurd (cc h)

  -- A Read of an open response.
  read_open-IsPiece :
      (ctx : ℕ → Option Error) (g : Gives) (n : ℕ) (r : RangeReader) (src : Source)
      → ctx 3 ≢ some eof
      → r.size ≡ length blob
      → r.read_error ≢ some eof
      → BodyIs r (some src)
      → IsPiece r n (read_open ctx g n r (some src))
  unfolding take_piece
  read_open-IsPiece ctx g n r src plain sized clean (before, inside, starts) =
      let m = min n (r.response_end - r.offset + 1) in
      let k = piece_size m g src in
      let ((given, p), after) =
        Starts-cut k (r.response_end + 1 - r.offset) src.bytes (drop r.offset blob) (omega arith)
          (omega arith) starts in
      let size : length (take k src.bytes) ≡ k = omega (arith, length-take k src.bytes) in
      let r' : RangeReader = record r { offset = r.offset + length (take k src.bytes) } in
      let rest : Source = record src { bytes = drop k src.bytes } in
      let (b, e, _) = read_body m g src in
      let (offset, same, error, shut, fine, body) =
        overruled-Ended (ctx 3) r'
          (boundary rest (cut_short (instead (state_error r' (ctx 2)) e) r') r') plain
          (boundary-Ended rest (instead (state_error r' (ctx 2)) e) r' (omega (arith, size)) inside
            (rest_starts k size after)) in
      finish-IsPiece r n (take k src.bytes) _ _ (given, p) (omega (arith, size)) offset
        (same ∙ sized) (λ h. clean (sym error ∙ h)) fine body
    where
      rest_starts :
          (k : ℕ)
          → length (take k src.bytes) ≡ k
          → Starts
              (take (r.response_end + 1 - r.offset - k) (drop k src.bytes))
              (drop k (drop r.offset blob))
          → Starts
              (take
                (r.response_end + 1 - (r.offset + length (take k src.bytes)))
                (drop k src.bytes))
              (drop (r.offset + length (take k src.bytes)) blob)
      rest_starts k size (zs, q) = (
        zs,
        ap (λ j. take j (drop k src.bytes) ++ zs)
              {x = r.response_end + 1 - (r.offset + length (take k src.bytes))}
              {y = r.response_end + 1 - r.offset - k} (omega (arith, size))
            ∙ q
            ∙ drop-drop r.offset k blob
            ∙ ap (λ j. drop j blob) {x = r.offset + k} (omega (arith, size)),
      )

  -- The origin serves the blob: the body of a response that the reader accepts holds the bytes of its
  -- range, as far as it comes. A request does not fail with io.EOF itself.
  abbrev pub Serves : Fetch → RangeReader → Type 0
  Serves fetch r =
      ((resp : RangeResponse) (last : ℕ)
        → fetch (target_of r) r.offset (condition_of r) ≡ ok resp
        → accept r resp ≡ ok last
        → Starts (take (last + 1 - r.offset) resp.body.bytes) (drop r.offset blob))
      × (fetch (target_of r) r.offset (condition_of r) ≢ err eof)

  -- What openResponse leaves.
  abbrev Opens : RangeReader → Option Error × RangeReader → Type 0
  Opens r (e, t) = (t.offset ≡ r.offset) × IsReading t × (e ≢ some eof)

  installed-Opens :
      (ctx : Option Error) (r t : RangeReader) (resp : RangeResponse) (last : ℕ)
      → ctx ≢ some eof
      → t.offset ≡ r.offset
      → IsReading t
      → (r.offset ≤ last) × (last < r.size)
      → t.size ≡ r.size
      → Starts (take (last + 1 - r.offset) resp.body.bytes) (drop r.offset blob)
      → Opens r (installed ctx t resp last)
  installed-Opens ctx r t resp last plain same (sized, clean, body) (before, inside) size
        (zs, starts) =
      by_test (Opens r) t.closed (λ shut. (same, (sized, clean, body), λ k. cc k))
        (λ live. by_ctx ctx plain)
    where
      by_ctx :
          (ctx : Option Error)
          → ctx ≢ some eof
          → Opens r (elim ctx [
            | some e ↦ (some e, t)
            | none ↦ (none, record t { body = some resp.body; response_end = last })
          ])
      by_ctx (some e) plain = (same, (sized, clean, body), plain)
      by_ctx none plain = (
        same,
        (
          sized,
          clean,
          (
            omega arith,
            omega arith,
            (
              zs,
              ap (λ j. take (last + 1 - j) resp.body.bytes ++ zs) same
                  ∙ starts
                  ∙ ap (λ j. drop j blob) (sym same),
            ),
          ),
        ),
        λ k. cc k,
      )

  no_body : (t : RangeReader) (o : Option Source) → o ≡ none → BodyIs t o
  no_body t none h = tt
  no_body t (some src) h = absurd (cc h)

  settle-Opens :
      (ctx : Option Error) (r : RangeReader) (resp : RangeResponse) (o : Result ℕ)
      → accept r resp ≡ o
      → ctx ≢ some eof
      → IsReading r
      → r.body ≡ none
      → r.offset < r.size
      → ((last : ℕ)
          → o ≡ ok last
          → Starts (take (last + 1 - r.offset) resp.body.bytes) (drop r.offset blob))
      → Opens r (settle ctx r resp o)
  settle-Opens ctx r resp (err e) eq plain reading empty inside serves =
      (refl, reading, λ k. accept-NotEnd r resp (eq ∙ cc k))
  settle-Opens ctx r resp (ok last) eq plain reading empty inside serves =
      let within = accept_within r resp last inside eq in
      by_test (λ t. Opens r (installed ctx t resp last)) r.fetched
        (λ again.
          installed-Opens ctx r r resp last plain refl reading within refl (serves last refl))
        (λ first.
          let t : RangeReader = record r {
            etag = strong_etag resp.etag;
            representation_url = resp.url;
            fetched = true;
          } in
          installed-Opens ctx r t resp last plain refl
            (reading.0, reading.1, no_body t r.body empty) within refl (serves last refl))

  open_response-Opens :
      (fetch : Fetch) (ctx : Option Error) (r : RangeReader)
      → ctx ≢ some eof
      → IsReading r
      → r.body ≡ none
      → r.offset < r.size
      → Serves fetch r
      → Opens r (open_response fetch ctx r)
  unfolding open_response
  open_response-Opens fetch ctx r plain reading empty inside (serves, refuses) =
      by_test (Opens r) (r.fetched && is_empty r.etag) (λ stuck. (refl, reading, λ k. cc k))
        (λ fine. by_answer (fetch (target_of r) r.offset (condition_of r)) refl)
    where
      by_answer :
          (a : Result RangeResponse)
          → fetch (target_of r) r.offset (condition_of r) ≡ a
          → Opens r (answered ctx r a)
      by_answer (err e) eq = (refl, reading, λ k. refuses (eq ∙ cc k))
      by_answer (ok resp) eq =
          settle-Opens ctx r resp (accept r resp) refl plain reading empty inside
            (λ last accepted. serves resp last eq accepted)

  any_body-IsPiece :
      (ctx : ℕ → Option Error) (g : Gives) (n : ℕ) (r : RangeReader) (o : Option Source)
      → ctx 3 ≢ some eof
      → IsReading r
      → BodyIs r o
      → IsPiece r n (read_open ctx g n r o)
  any_body-IsPiece ctx g n r none plain reading body =
      nothing r r n (some closed) refl reading (λ k. cc k)
  any_body-IsPiece ctx g n r (some src) plain reading body =
      read_open-IsPiece ctx g n r src plain reading.0 reading.1 body

  -- A Read of a reader at the same place.
  IsPiece-at :
      (r t : RangeReader) (n : ℕ) (a : (List ℕ × Option Error) × RangeReader)
      → t.offset ≡ r.offset
      → t.size ≡ r.size
      → IsPiece t n a
      → IsPiece r n a
  IsPiece-at r t n ((b, e), u) same size ((zs, q), moved, short, reading, end) = (
    (zs, q ∙ ap (λ j. drop j blob) same),
    omega arith,
    short,
    reading,
    λ k. let (empty, over) = end k in (empty, omega (arith, over)),
  )

  opened_read-IsPiece :
      (ctx : ℕ → Option Error) (g : Gives) (n : ℕ) (r : RangeReader)
      (a : Option Error × RangeReader)
      → ctx 3 ≢ some eof
      → IsReading r
      → Opens r a
      → IsPiece r n (opened_read ctx g n a)
  opened_read-IsPiece ctx g n r (some e, t) plain before (same, reading, fine) =
      nothing r t n (some e) same reading (λ k. absurd (fine k))
  opened_read-IsPiece ctx g n r (none, t) plain before (same, reading, fine) =
      IsPiece-at r t n (read_open ctx g n t t.body) same (reading.0 ∙ sym before.0)
        (any_body-IsPiece ctx g n t t.body plain reading reading.2)

  -- Of a reader of a blob, at whatever place, with a response open or not, where the accepted
  -- responses hold the bytes of their range and neither the context nor a request fails with io.EOF:
  -- a Read gives the next bytes of the blob, no more than were asked for, moves on by as many, and
  -- leaves a reader of the blob; io.EOF comes without bytes and at the end of the blob alone, so a
  -- blob is never cut short unseen.
  pub read-IsPiece :
      (fetch : Fetch) (ctx : ℕ → Option Error) (g : Gives) (n : ℕ) (r : RangeReader)
      → ((k : ℕ) → ctx k ≢ some eof)
      → Serves fetch r
      → IsReading r
      → IsPiece r n (read fetch ctx g n r)
  unfolding read
  read-IsPiece fetch ctx g n r plain serves reading = by_state (state_error r (ctx 0)) state_fine
    where
      state_fine : state_error r (ctx 0) ≢ some eof
      state_fine = by_test (λ o. o ≢ some eof) r.closed (λ c k. cc k) (λ c. plain 0)

      by_error :
          (o : Option Error)
          → r.read_error ≡ o
          → IsPiece r n (elim o [
            | some e ↦ (([], some e), r)
            | none ↦
                if leb r.size r.offset
                then (([], some eof), r)
                else if is_some r.body
                then read_open ctx g n r r.body
                else opened_read ctx g n (open_response fetch (ctx 1) r)
          ])
      by_error (some e) failed =
          nothing r r n (some e) refl reading (λ k. absurd (reading.1 (failed ∙ k)))
      by_error none fine =
          by_test (IsPiece r n) (leb r.size r.offset)
            (λ end. nothing r r n (some eof) refl reading (λ k. ground (arith, end)))
            (λ more.
              by_test (IsPiece r n) (is_some r.body)
                (λ live. any_body-IsPiece ctx g n r r.body (plain 3) reading reading.2)
                (λ fresh.
                  opened_read-IsPiece ctx g n r (open_response fetch (ctx 1) r) (plain 3) reading (
                    open_response-Opens fetch (ctx 1) r (plain 1) reading (ground (arith, fresh))
                      (ground (arith, more)) serves)))

      by_state :
          (o : Option Error)
          → o ≢ some eof
          → IsPiece r n (elim o [
            | some e ↦ (([], some e), r)
            | none ↦ if n == 0 then (([], none), r) else elim r.read_error [
              | some e ↦ (([], some e), r)
              | none ↦
                  if leb r.size r.offset
                  then (([], some eof), r)
                  else if is_some r.body
                  then read_open ctx g n r r.body
                  else opened_read ctx g n (open_response fetch (ctx 1) r)
            ]
          ])
      by_state (some e) fine = nothing r r n (some e) refl reading (λ k. absurd (fine k))
      by_state none fine =
          by_test (IsPiece r n) (n == 0)
            (λ empty. nothing r r n none refl reading (λ k. absurd (cc k)))
            (λ some_room. by_error r.read_error refl)
