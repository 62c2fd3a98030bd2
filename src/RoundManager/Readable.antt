-- ===== src/RoundManager/Readable.antt =====
-- The entries of a round can be read back.
use pool_dance.Prelude.{
  ℕ, ◌<◌, ◌≡◌, refl, Option, none, some, List, [], ◌∷◌, Str, codes, All, arith,
}
use pool_dance.Format.{text, quoted, decimal, tabs}
use pool_dance.Format.Decimal.{read_from, power, decimal-read, IsDigit, decimal-IsDigit}
use pool_dance.Format.Fields.{
  split, unquoted, HasNoTab, split-tabs, unquoted-quoted, quoted-HasNoTab,
}
use pool_dance.RoundManager.{share_entry, block_entry}

-- What a reader of the round file makes of a line: the time, the kind, the number, the user and
-- the password.
pub record Line : Type 0 where
  pub time : ℕ
  pub kind : Str
  pub number : ℕ
  pub user : Str
  pub passw : Str

abbrev pub read_fields : List Str → Option Line
read_fields (time ∷ kind ∷ number ∷ user ∷ passw ∷ []) = some (record {
  time = read_from 0 time;
  kind = kind;
  number = read_from 0 number;
  user = unquoted user;
  passw = unquoted passw;
})
read_fields fields = none

unfoldable pub read_line : Str → Option Line
read_line s = read_fields (split s)

digits-HasNoTab : (s : Str) → All IsDigit s → HasNoTab s
digits-HasNoTab [] h = tt
digits-HasNoTab (c ∷ s) h = (let digit = h.0 in omega arith, digits-HasNoTab s h.1)

read_line-tabs :
    (now number : ℕ) (kind user passw : Str)
    → now < power 20
    → number < power 20
    → HasNoTab kind
    → HasNoTab user
    → HasNoTab passw
    → read_line (tabs (decimal now ∷ kind ∷ decimal number ∷ quoted user ∷ quoted passw ∷ []))
      ≡ some (record { time = now; kind = kind; number = number; user = user; passw = passw })
unfolding read_line
read_line-tabs now number kind user passw t n k u p =
    let fields =
      split-tabs (decimal now) (kind ∷ decimal number ∷ quoted user ∷ quoted passw ∷ []) (
        digits-HasNoTab (decimal now) (decimal-IsDigit now),
        (
          k,
          (
            digits-HasNoTab (decimal number) (decimal-IsDigit number),
            (quoted-HasNoTab user u, (quoted-HasNoTab passw p, tt)),
          ),
        ),
      ) in
    rw
      (
        fields,
        decimal-read now t,
        decimal-read number n,
        unquoted-quoted user,
        unquoted-quoted passw,
      )
      refl

share_no_tab : HasNoTab (codes "SHARE")
share_no_tab = (omega arith, (omega arith, (omega arith, (omega arith, (omega arith, tt)))))

block_no_tab : HasNoTab (codes "BLOCK")
block_no_tab = (omega arith, (omega arith, (omega arith, (omega arith, (omega arith, tt)))))

-- The line of a share is read back: its time, its result code, the user and the password, NULL as
-- `(null)`, if neither name has a tab and the numbers are below 10^20.
pub read_line-share_entry :
    (now result_code : ℕ) (user passw : Option Str)
    → now < power 20
    → result_code < power 20
    → HasNoTab (text user)
    → HasNoTab (text passw)
    → read_line (share_entry now result_code user passw)
      ≡ some (record {
        time = now;
        kind = codes "SHARE";
        number = result_code;
        user = text user;
        passw = text passw;
      })
unfolding share_entry
read_line-share_entry now result_code user passw t n u p =
    read_line-tabs now result_code (codes "SHARE") (text user) (text passw) t n share_no_tab u p

-- The line of a block is read back: its time, its number, the user and the password, NULL as
-- `(null)`, if neither name has a tab and the numbers are below 10^20.
read_line-block_entry :
    (now block : ℕ) (user passw : Option Str)
    → now < power 20
    → block < power 20
    → HasNoTab (text user)
    → HasNoTab (text passw)
    → read_line (block_entry now block user passw)
      ≡ some (record {
        time = now;
        kind = codes "BLOCK";
        number = block;
        user = text user;
        passw = text passw;
      })
unfolding block_entry
read_line-block_entry now block user passw t n u p =
    read_line-tabs now block (codes "BLOCK") (text user) (text passw) t n block_no_tab u p
