-- ===== src/Booking/Clients.antt =====
-- hw1_csiebooking-lala-ju/server.c: the table of clients that both servers keep (`requestP`, `state`
-- and the descriptor set `master`), a list with a place for each descriptor; the messages to clients;
-- and how many clients of one record are in a given state.
use system_programming_homew.Prelude.{
  ℕ, zero, suc, ◌+◌, ◌%◌, ◌≤◌, ◌≡◌, refl, Bool, true, false, ◌&&◌, List, [], ◌∷◌, some, ◌==◌,
  if◌then◌else◌, get_elem?, set, replicate, ap, ◌≢◌, arith,
}
use system_programming_homew.Prelude.Int.{ℤ}

-- HI, ID, EXIT, COMMAND
pub data Phase : Type 0 where
  hi ident exit command : Phase

abbrev pub same_phase : Phase → Phase → Bool
same_phase hi hi = true
same_phase ident ident = true
same_phase exit exit = true
same_phase command command = true
same_phase _ _ = false

-- A descriptor's entries: `is_open` is its bit in `master`, `id` the client's id.
pub record Client : Type 0 where
  pub is_open : Bool
  pub state : Phase
  pub id : ℕ

-- `close`, `free_request` and FD_CLR; the state stays as it was.
abbrev pub shut : Client → Client
shut c = record c { is_open = false; id = 0 }

-- What is sent; the numbers are those of the record.
pub data Message : Type 0 where
  enter_id failed locked too_many too_few : Message
  bookings_exit bookings_command : ℤ → ℤ → ℤ → Message
  updated : ℕ → ℤ → ℤ → ℤ → Message

-- 1 if the client is connected, in state `p`, and its id is that of record `r`.
abbrev pub uses : Phase → ℕ → Client → ℕ
uses p r c = if c.is_open && (same_phase c.state p && (c.id % 100) == r) then 1 else 0

unfoldable pub users : Phase → ℕ → List Client → ℕ
users p r [] = 0
users p r (c ∷ cs) = uses p r c + users p r cs

-- A change of one entry moves the count by that entry alone.
pub users-set :
    (p : Phase) (r : ℕ) (cs : List Client) (fd : ℕ) (c c' : Client)
    → get_elem? cs fd ≡ some c
    → users p r (set cs fd c') + uses p r c ≡ users p r cs + uses p r c'
unfolding users
users-set p r [] fd c c' h = cc
users-set p r (x ∷ cs) zero c c' h = let e : x ≡ c = cc in rw e (omega arith)
users-set p r (x ∷ cs) (suc fd) c c' h = omega (arith, users-set p r cs fd c c' h)

-- A client that counts is counted.
pub uses-le-users :
    (p : Phase) (r : ℕ) (cs : List Client) (fd : ℕ) (c : Client)
    → get_elem? cs fd ≡ some c
    → uses p r c ≤ users p r cs
unfolding users
uses-le-users p r [] fd c h = cc
uses-le-users p r (x ∷ cs) zero c h = let e : x ≡ c = cc in rw e (omega arith)
uses-le-users p r (x ∷ cs) (suc fd) c h = omega (arith, uses-le-users p r cs fd c h)

-- One place of an array that is indexed by records.
abbrev pub update {ℓ} : {A : Type ℓ} → (ℕ → A) → ℕ → A → ℕ → A
update f r v k = if k == r then v else f k

-- Two clients that count are counted apart.
pub uses-two-le-users :
    (p : Phase) (r : ℕ) (cs : List Client) (fd fd' : ℕ) (c c' : Client)
    → get_elem? cs fd ≡ some c
    → get_elem? cs fd' ≡ some c'
    → fd ≢ fd'
    → uses p r c + uses p r c' ≤ users p r cs
unfolding users
uses-two-le-users p r [] fd fd' c c' h h' n = cc
uses-two-le-users p r (x ∷ cs) zero zero c c' h h' n = absurd (n refl)
uses-two-le-users p r (x ∷ cs) zero (suc fd') c c' h h' n =
    let e : x ≡ c = cc in rw e (omega (arith, uses-le-users p r cs fd' c' h'))
uses-two-le-users p r (x ∷ cs) (suc fd) zero c c' h h' n =
    let e : x ≡ c' = cc in rw e (omega (arith, uses-le-users p r cs fd c h))
uses-two-le-users p r (x ∷ cs) (suc fd) (suc fd') c c' h h' n =
    omega (arith, uses-two-le-users p r cs fd fd' c c' h h' (λ e. n (ap suc e)))

-- A client in phase `p` on record `r`.
pub record IsUsing (p : Phase) (r : ℕ) (c : Client) : Type 0 where
  pub is_open_ok : c.is_open ≡ true
  pub state_ok : c.state ≡ p
  pub id_ok : c.id % 100 ≡ r

-- No descriptor is in use.
abbrev pub no_client : Client
no_client = record { is_open = false; state = hi; id = 0 }

pub users-replicate : (p : Phase) (r n : ℕ) → users p r (replicate n no_client) ≡ 0
unfolding users
users-replicate p r zero = refl
users-replicate p r (suc n) = omega (arith, users-replicate p r n)
