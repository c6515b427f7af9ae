-- ===== src/Ticket/Window.antt =====
-- The lifetime of a ticket, `CheckWindow` of internal/ticket/ticket.go.
use buddynet.Support.{Bool, false, not, ◌||◌, ◌⊎◌, ◌+◌, ◌*◌, ◌≤◌, ◌<◌, ◌≡◌, ◌↔◌, arith}
use buddynet.Support.Int.{ℤ, pos, pos_part, neg_part, ◌+ℤ◌, ◌-ℤ◌, ◌≤ℤ◌, leb_ℤ, int_laws}
use buddynet.Ticket.{Payload, ok, half_word, word, max_ttl, skew, wrap, check_window}

-- A value of an int64.
abbrev pub InRange : ℤ → Type 0
InRange z = (pos_part z < half_word) × (neg_part z ≤ half_word)

-- The rules of the source's comment, over the integers: no wrap-around.
pub record IsCurrent (p : Payload) (now : ℤ) : Type 0 where
  pub positive : pos_part p.iat + neg_part p.exp < pos_part p.exp + neg_part p.iat
  pub short : p.exp ≤ℤ p.iat +ℤ pos max_ttl
  pub issued : p.iat ≤ℤ now +ℤ pos skew
  pub unexpired : now ≤ℤ p.exp +ℤ pos skew

wrap-InRange : (z : ℤ) → InRange z → wrap z ≡ z
unfolding wrap ◌-ℤ◌
wrap-InRange z h = ground arith

-- The test of the span, on the int64 that the difference wraps to.
refused : ℤ → Bool
refused z = leb_ℤ z (pos 0) || not (leb_ℤ z (pos max_ttl))

refused-wrap :
    (z : ℤ)
    → pos_part z < word
    → neg_part z ≤ half_word
    → (refused (wrap z) ≡ false) ↔ ((0 < pos_part z) × (pos_part z ≤ max_ttl))
unfolding refused wrap ◌-ℤ◌ ◌+ℤ◌
refused-wrap z h k = (λ e. (ground arith, ground arith), λ e. ground arith)

-- With the three sums wrapped, the tests are these.
check_window_cases :
    (p : Payload) (now a b : ℤ)
    → wrap (now +ℤ pos skew) ≡ a
    → wrap (now -ℤ pos skew) ≡ b
    → (check_window p now ≡ ok tt)
      ↔ ((refused (wrap (p.exp -ℤ p.iat)) ≡ false) × (p.iat ≤ℤ a) × (b ≤ℤ p.exp))
unfolding check_window refused
check_window_cases p now a b ea eb =
    rw (ea, eb, check_window) (λ h. (ground arith, ground arith, ground arith), λ h. ground arith)

-- For the int64 of a ticket and a clock that is at least ten seconds from the ends of int64,
-- `CheckWindow` accepts exactly when the rules hold over the integers: a span that wraps around
-- is never accepted.
pub check_window_iff :
    (p : Payload) (now : ℤ)
    → InRange p.iat
    → InRange p.exp
    → InRange (now +ℤ pos skew)
    → InRange (now -ℤ pos skew)
    → (check_window p now ≡ ok tt) ↔ IsCurrent p now
check_window_iff p now ri re ra rb =
    let a = now +ℤ pos skew in
    let b = now -ℤ pos skew in
    let cases = check_window_cases p now a b (wrap-InRange a ra) (wrap-InRange b rb) in
    let span = p.exp -ℤ p.iat in
    let below : pos_part span < word = omega (int_laws, positive_part span) in
    (
      λ h.
          let (s, i, e) = cases.0 h in
          let (low, high) =
            (refused-wrap span below (omega (int_laws, i, e, positive_part span))).0 s in
          record {
            positive = omega (int_laws, low, positive_part span);
            short = omega (int_laws, high, positive_part span);
            issued = i;
            unexpired = omega (int_laws, e);
          },
      λ c. cases.1 (
        (refused-wrap span below (omega (int_laws, c, positive_part span))).1
            (omega (int_laws, c, positive_part span), omega (int_laws, c, positive_part span)),
        c.issued,
        omega (int_laws, c.unexpired),
      ),
    )
  where
    -- One part of an integer is zero.
    positive_part : (z : ℤ) → (pos_part z ≡ 0) ⊎ (neg_part z ≡ 0)
    positive_part z = ground arith

-- For int64 times away from the ends of int64, a ticket that `CheckWindow` accepts at two times is
-- accepted over at most 140 seconds: the worst case that the source's comment states, `MaxTTL` and
-- twice the skew.
pub lifetime :
    (p : Payload) (now later : ℤ)
    → InRange p.iat
    → InRange p.exp
    → InRange (now +ℤ pos skew)
    → InRange (now -ℤ pos skew)
    → InRange (later +ℤ pos skew)
    → InRange (later -ℤ pos skew)
    → check_window p now ≡ ok tt
    → check_window p later ≡ ok tt
    → later ≤ℤ now +ℤ pos (max_ttl + 2 * skew)
lifetime p now later ri re a b c d h k =
    let first = (check_window_iff p now ri re a b).0 h in
    let last = (check_window_iff p later ri re c d).0 k in omega (int_laws, first, last)
