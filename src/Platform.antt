-- ===== src/Platform.antt =====
-- The calls that the endpoint grammar makes into Windows and the C runtime, as parameters: the
-- character classes behind CString::Trim and CString::CompareNoCase, and InetPtonW.
use target_facade.Base.{ℕ, ◌≤◌, ◌≡◌, Bool, true, false, Option, some, List}
use target_facade.Base.Text.{WString, has}

pub record Platform : Type 0 where
  -- `iswspace`
  pub is_space : ℕ → Bool
  -- `towlower`
  pub to_lower : ℕ → ℕ
  -- `InetPtonW (AF_INET, s, …) == 1`
  pub inet_pton4 : WString → Bool
  -- the 16 bytes of `InetPtonW (AF_INET6, s, …) == 1`, or none for any other answer
  pub inet_pton6 : WString → Option (List ℕ)

-- What is documented of them, as far as the proofs need it.
pub record IsPlatform (p : Platform) : Type 0 where
  pub graph_kept : (c : ℕ) → 33 ≤ c → c ≤ 126 → p.is_space c ≡ false
  pub lower_kept : (c : ℕ) → b'a' ≤ c → c ≤ b'z' → p.to_lower c ≡ c
  pub digit_kept : (c : ℕ) → b'0' ≤ c → c ≤ b'9' → p.to_lower c ≡ c
  -- every textual IPv6 address has a colon
  pub pton6_colon : (s : WString) (bytes : List ℕ) → p.inet_pton6 s ≡ some bytes → has b':' s ≡ true
