-- ===== src/Cpumon/Stat.antt =====
-- /proc/<pid>/stat as the kernel writes it.
use quic_hop.Base.{ℕ, ◌^◌, ◌<◌, ◌≤◌, ◌≡◌, List, [], length, get_or}
use quic_hop.Strconv.{decimal}

-- The words behind the command's name say these times, in ticks, and this memory, in pages.
pub record Says (words : List (List ℕ)) (utime stime rss : ℕ) : Type 0 where
  pub enough : 22 ≤ length words
  pub utime_word : get_or words 11 [] ≡ decimal utime
  pub stime_word : get_or words 12 [] ≡ decimal stime
  pub rss_word : get_or words 21 [] ≡ decimal rss
  pub utime_small : utime < 2 ^ 64
  pub stime_small : stime < 2 ^ 64
  pub rss_small : rss < 2 ^ 64
