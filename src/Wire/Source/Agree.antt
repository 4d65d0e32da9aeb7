-- ===== src/Wire/Source/Agree.antt =====
-- The reader beside the cursor: what either hands out of the same input.
use itch_exchange.Prelude.{
  ℕ, zero, suc, ◌≤◌, ◌<◌, ◌≡◌, refl, sym, ap, ◌∙◌, subst, true, List, [], ◌∷◌, ◌++◌, leb, length,
  length-append, All, arith,
}
use itch_exchange.Core.Check.{Check, ok, ◌>>=◌}
use itch_exchange.Core.Endian.{Host, take}
use itch_exchange.Core.Endian.Bytes.{IsByte}
use itch_exchange.Core.Word.{two_64}
use itch_exchange.Wire.Framing
use itch_exchange.Wire.Framing.Next.{at, answer, next-verdict}
use itch_exchange.Wire.Framing.Verdict.{verdict}
use itch_exchange.Wire.Framing.{FrameStatus, Answer, FrameError, FrameCursor, no_error}
use itch_exchange.Wire.Source.Ahead.{
  longest, verdict-take, answer-at, answer-same, after-IsByte, after-length,
}
use itch_exchange.Wire.Source.Loop.{all_fuel}
use itch_exchange.Wire.Source.Next.{verdict-Within, after, Holds, Gives}
use itch_exchange.Wire.Source.Refill.{held}
use itch_exchange.Wire.Source.{
  ByteSource, Delivers, FrameReader, new_reader, reader_next, min_buffer_size, zeros,
}

-- What a caller sees of a call.
abbrev Seen : Type 0
Seen = FrameStatus × List ℕ × FrameError

-- So many calls of the cursor, and of the reader.
unfoldable pub cursor_calls : ℕ → Host → List ℕ → FrameCursor → Check (List Seen)
cursor_calls zero host out c = ok []
cursor_calls (suc n) host out c = Framing.next host out c >>= λ (st, frame, c').
    cursor_calls n host frame c' >>= λ rest. ok ((st, frame, c'.error) ∷ rest)

unfoldable pub reader_calls :
    (S : ByteSource) → ℕ → ℕ → Host → List ℕ → FrameReader S → Check (List Seen)
reader_calls S fuel zero host out r = ok []
reader_calls S fuel (suc n) host out r = reader_next S fuel host out r >>= λ (st, frame, r').
    reader_calls S fuel n host frame r' >>= λ rest. ok ((st, frame, r'.cursor.error) ∷ rest)

length-zeros : (n : ℕ) → length (zeros n) ≡ n
length-zeros zero = refl
length-zeros (suc n) = ap suc (length-zeros n)

-- One call on either side, and then the others.
calls-turn :
    (S : ByteSource) (fuel : ℕ) (host : Host) (n : ℕ) (out : List ℕ) (r r' : FrameReader S)
    (c : FrameCursor) (a b : Answer) (c' : FrameCursor)
    → reader_next S fuel host out r ≡ ok (a.0, a.1, r')
    → r'.cursor.error ≡ a.2.error
    → Framing.next host out c ≡ ok b
    → b.0 ≡ a.0
    → b.1 ≡ a.1
    → b.2 ≡ c'
    → c'.error ≡ a.2.error
    → reader_calls S fuel n host a.1 r' ≡ cursor_calls n host a.1 c'
    → reader_calls S fuel (suc n) host out r ≡ cursor_calls (suc n) host out c
unfolding reader_calls cursor_calls
calls-turn S fuel host n out r r' c a b c' ran err next st frame cur err' more =
    rw (ran, next, st, frame, cur)
      (ap (λ m. m >>= λ rest. ok ((a.0, a.1, r'.cursor.error) ∷ rest)) more
        ∙ ap (λ x. cursor_calls n host a.1 c' >>= λ rest. ok ((a.0, a.1, x) ∷ rest))
            (err ∙ sym err'))

module _ (S : ByteSource) (D : Delivers S) (host : Host) (cap fuel : ℕ) (small : cap < two_64) where
  -- A reader with a buffer of fewer than 2 ^ 64 bytes, over any source that keeps its promises and with more
  -- fuel than the source has bytes left: `next` returns, with the status, the frame and the error of
  -- the verdict on as many of the bytes ahead of it as the buffer holds. A whole frame is passed,
  -- and otherwise everything is still ahead.
  pub reader_next-verdict :
      (out : List ℕ) (r : FrameReader S) (ahead : List ℕ)
      → Holds S D cap r ahead
      → All IsByte ahead
      → length (D.left r.source) < fuel
      → Gives S D cap out (verdict (take cap ahead)) ahead (reader_next S fuel host out r)
  reader_next-verdict out r ahead (xs, ys, zs, e, here, valid, rest, size) bytes enough =
      subst (λ a. Gives S D cap out (verdict (take cap a)) a (reader_next S fuel host out r))
        (sym rest)
        (subst
          (λ q.
            Gives S D cap out (verdict (take cap (ys ++ D.left r.source))) (ys ++ D.left r.source)
              (reader_next S fuel host out q))
          (sym here)
          (all_fuel S D host cap small fuel out r.source xs ys zs e r.frames r.consumed valid size
            (subst (All IsByte) rest bytes) enough))

  calls-agree :
      (n : ℕ) (out xs ahead : List ℕ) (e : FrameError) (r : FrameReader S)
      → longest ≤ cap
      → Holds S D cap r ahead
      → All IsByte ahead
      → length ahead < fuel
      → length (xs ++ ahead) < two_64
      → reader_calls S fuel n host out r ≡ cursor_calls n host out (at xs ahead e)
  unfolding reader_calls cursor_calls
  calls-agree zero out xs ahead e r wide holds bytes enough less = refl
  calls-agree (suc n) out xs ahead e r wide holds bytes enough less =
      let v = verdict ahead in
      let (_, ys, _, _, _, _, rest, _) = holds in
      let (r', ran, err, holds') =
        subst (λ w. Gives S D cap out w ahead (reader_next S fuel host out r))
          (verdict-take cap ahead bytes wide)
          (reader_next-verdict out r ahead holds bytes
            (omega (arith, enough, ap length rest, length-append ys (D.left r.source)))) in
      let (xs', cur, size) = answer-at v out xs ahead (verdict-Within ahead) in
      let (st, frame) = answer-same v out (xs ++ ahead) (length xs) in
      let fewer = after-length v ahead in
      calls-turn S fuel host n out r r' (at xs ahead e) (answer out [] 0 v)
        (answer out (xs ++ ahead) (length xs) v)
        (at xs' (after v ahead) (answer out [] 0 v).2.error) ran err
        (next-verdict host out xs ahead e bytes less) st frame cur refl
        (calls-agree n (answer out [] 0 v).1 xs' (after v ahead) (answer out [] 0 v).2.error r' wide
          holds' (after-IsByte v ahead bytes) (omega (arith, fewer, enough))
          (omega (arith, size, less)))

  -- A buffer that holds the longest frame that a length can announce, and fewer than 2 ^ 64 bytes; any source
  -- that keeps its promises, with fewer bytes than the fuel and than 2 ^ 64. However many calls
  -- are made of a fresh reader, they return the statuses, the frames and the errors that as many calls
  -- return of a fresh cursor over all of the source's bytes.
  pub calls-same :
      (n : ℕ) (out : List ℕ) (s : S.State)
      → longest ≤ cap
      → D.Valid s
      → All IsByte (D.left s)
      → length (D.left s) < fuel
      → length (D.left s) < two_64
      → (new_reader S s cap >>= λ r. reader_calls S fuel n host out r)
        ≡ cursor_calls n host out (record { buf = D.left s; pos = 0; error = no_error })
  unfolding new_reader
  calls-same n out s wide valid bytes enough less =
      let high : leb min_buffer_size cap ≡ true = ground (arith, wide) in
      rw high (
        calls-agree n out [] (D.left s) no_error (held S D s [] [] (zeros cap) no_error 0 0) wide
          ([], [], zeros cap, no_error, refl, valid, refl, length-zeros cap) bytes enough less)
