-- ===== src/Tests/Sample.antt =====
-- A platform for ASCII text that knows one IPv4 address and two IPv6 addresses.
use target_facade.Base.{
  ℕ, ◌+◌, ◌≡◌, true, ◌&&◌, ◌||◌, List, [], ◌∷◌, Option, none, some, arith, ◌==◌, leb, if◌then◌else◌,
}
use target_facade.Base.Text.{WString, codes, equal, equal_iff, has}
use target_facade.Platform.{Platform, IsPlatform}

abbrev pub zeros : List ℕ
zeros = 0 ∷ 0 ∷ 0 ∷ 0 ∷ 0 ∷ 0 ∷ 0 ∷ 0 ∷ 0 ∷ 0 ∷ 0 ∷ 0 ∷ 0 ∷ 0 ∷ 0 ∷ 0 ∷ []

abbrev pub loopback : List ℕ
loopback = 0 ∷ 0 ∷ 0 ∷ 0 ∷ 0 ∷ 0 ∷ 0 ∷ 0 ∷ 0 ∷ 0 ∷ 0 ∷ 0 ∷ 0 ∷ 0 ∷ 0 ∷ 1 ∷ []

abbrev sample_pton6 : WString → Option (List ℕ)
sample_pton6 s =
    if equal s (codes "::")
    then some zeros
    else if equal s (codes "::1")
    then some loopback
    else none

abbrev pub sample : Platform
sample = record {
  is_space = λ c. (leb 9 c && leb c 13) || c == 32;
  to_lower = λ c. if leb b'A' c && leb c b'Z' then c + 32 else c;
  inet_pton4 = λ s. equal s (codes "127.0.0.1");
  inet_pton6 = sample_pton6;
}

sample_colon : (s : WString) (bytes : List ℕ) → sample_pton6 s ≡ some bytes → has b':' s ≡ true
unfolding has
sample_colon s bytes h = ground (arith, equal_iff s (codes "::"), equal_iff s (codes "::1"))

pub sample-IsPlatform : IsPlatform sample
sample-IsPlatform = record {
  graph_kept = λ c low high. ground arith;
  lower_kept = λ c low high. ground arith;
  digit_kept = λ c low high. ground arith;
  pton6_colon = sample_colon;
}
