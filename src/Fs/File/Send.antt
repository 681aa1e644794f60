-- ===== src/Fs/File/Send.antt =====
-- The loop of sys_sendfile, from one file to another.
use hecto_os.Base.{
  ℕ, ◌+◌, ◌-◌, ◌%◌, ◌^◌, ◌<◌, ◌≡◌, Bool, not, ◌&&◌, ◌||◌, some, List, ◌==◌, leb, if◌then◌else◌,
  length, take, drop,
}
use hecto_os.Process.FdTable.{FdTable}
use hecto_os.Fs.File.Slices.{overwrite}
use hecto_os.Fs.File.{Inode, Files}
use hecto_os.Fs.File.Ends.{Ends, IsPair, At}
use hecto_os.Fs.File.Copy.{IsWhole}
use hecto_os.Fs.File.Calls.{send_round, send_loop}

-- How many bytes a round asks for
abbrev asked : ℕ → ℕ
asked remain = if leb 512 remain then 512 else remain

-- The loop stops short only at the end of the file, and otherwise goes on with all that it asked for.
abbrev stops : ℕ → ℕ → Bool
stops k remain = not (k == 512) && (not (k == asked remain) || not (k == k))

module _ {I : Type 0} (ops : Inode I) (content : I → List ℕ) (cursor : I → ℕ) (capacity : ℕ)
    (whole : IsWhole ops content cursor capacity) (e : Ends) (two : IsPair e) (a : List ℕ)
    (small : length a < 2 ^ 63) where
  pub record Sending (remain p q : ℕ) (b : List ℕ) (s : Files I) : Type 0 where
    pub k : ℕ
    pub after : Files I
    pub is : k ≡ (if leb (asked remain) (length a - p) then asked remain else length a - p)
    pub done :
        send_round ops e.out e.in_fd remain s ≡ some ((not (stops k remain), remain - k), after)
    pub at : At content e a (p + k) (q + k) (overwrite q (take k (drop p a)) b) after

  -- All the rounds: the bytes up to `remain` or the end of the file
  pub record Sent (fuel remain p q : ℕ) (b : List ℕ) (s : Files I) : Type 0 where
    pub n : ℕ
    pub after : Files I
    pub is : n ≡ (if leb remain (length a - p) then remain else length a - p)
    pub done : send_loop ops fuel e.out e.in_fd remain s ≡ some (remain - n, after)
    pub at : At content e a (p + n) (q + n) (overwrite q (take n (drop p a)) b) after

  -- While there is more to send, both positions are at the start of a sector.
  abbrev Sectors : ℕ → ℕ → ℕ → Type 0
  Sectors remain p q = 0 < remain → (p % 512 ≡ 0) × (q % 512 ≡ 0)
