-- ===== src/Platform.antt =====
-- include/cauchy/platform.h: what the preprocessor decides from the macros that a compiler defines.
use cauchy.Prelude.{
  ℕ, ◌+◌, ◌*◌, ◌^◌, ◌≡◌, ◌≤◌, Bool, true, false, ◌&&◌, ◌||◌, not, arith, if◌then◌else◌,
}

-- Whether the compiler defines each macro; the names are those of the macros without underscores
-- in front.
pub record Macros : Type 0 where
  pub x86_64 : Bool
  pub m_x64 : Bool
  pub aarch64 : Bool
  pub m_arm64 : Bool
  pub arm_feature_atomics : Bool
  pub arm : Bool
  pub m_arm : Bool
  pub gnuc : Bool
  pub clang : Bool
  pub msc_ver : Bool
  pub linux : Bool
  pub apple : Bool
  pub mach : Bool
  pub win32 : Bool
  pub win64 : Bool
  pub free_bsd : Bool

-- `CAUCHY_ARCH_*`
pub data Arch : Type 0 where
  arch_x86_64 arch_arm64 arch_arm32 arch_generic : Arch

unfoldable pub arch : Macros → Arch
arch m =
    if m.x86_64 || m.m_x64
    then arch_x86_64
    else if m.aarch64 || m.m_arm64
    then arch_arm64
    else if m.arm || m.m_arm
    then arch_arm32
    else arch_generic

-- `CAUCHY_CACHE_LINE_SIZE`
abbrev pub cache_line_size : Arch → ℕ
cache_line_size arch_x86_64 = 64
cache_line_size arch_arm64 = 64
cache_line_size arch_arm32 = 32
cache_line_size arch_generic = 64

-- `CAUCHY_HAS_DWCAS`
abbrev pub has_dwcas : Arch → Bool
has_dwcas arch_x86_64 = true
has_dwcas arch_arm64 = true
has_dwcas arch_arm32 = false
has_dwcas arch_generic = false

-- `CAUCHY_HAS_LSE`
unfoldable pub has_lse : Macros → Bool
has_lse m = is_arm64 (arch m) && m.arm_feature_atomics
  where
    is_arm64 : Arch → Bool
    is_arm64 arch_arm64 = true
    is_arm64 _ = false

-- `CAUCHY_COMPILER_*`
pub data Compiler : Type 0 where
  gcc clang_cc msvc unknown_cc : Compiler

unfoldable pub compiler : Macros → Compiler
compiler m =
    if m.gnuc && not m.clang
    then gcc
    else if m.clang
    then clang_cc
    else if m.msc_ver
    then msvc
    else unknown_cc

-- `CAUCHY_GCC_VERSION` and `CAUCHY_CLANG_VERSION`
abbrev pub compiler_version : ℕ → ℕ → ℕ
compiler_version major minor = major * 10000 + minor * 100

-- `CAUCHY_OS_*`
pub data Os : Type 0 where
  os_linux os_macos os_windows os_free_bsd os_unknown : Os

unfoldable pub os : Macros → Os
os m =
    if m.linux
    then os_linux
    else if m.apple && m.mach
    then os_macos
    else if m.win32 || m.win64
    then os_windows
    else if m.free_bsd
    then os_free_bsd
    else os_unknown

-- What `CAUCHY_CPU_PAUSE` stands for.
pub data Pause : Type 0 where
  pause yield_hint barrier mm_pause nothing : Pause

abbrev pub pause_hint : Arch → Pause
pause_hint arch_x86_64 = pause
pause_hint arch_arm64 = yield_hint
pause_hint arch_arm32 = barrier
pause_hint arch_generic = barrier

unfoldable pub cpu_pause : Compiler → Arch → Pause
cpu_pause gcc a = pause_hint a
cpu_pause clang_cc a = pause_hint a
cpu_pause msvc a = mm_pause
cpu_pause unknown_cc a = nothing

abbrev pub version_major : ℕ
version_major = 0

abbrev pub version_minor : ℕ
version_minor = 1

abbrev pub version_patch : ℕ
version_patch = 0

-- On every platform the size of a cache line is a power of two and a multiple of 16, the size that
-- the double-width compare-and-swap needs.
pub cache_line_size_power : (a : Arch) → (k : ℕ) × (cache_line_size a ≡ 2 ^ k) × (4 ≤ k)
cache_line_size_power arch_x86_64 = (6, omega arith, omega arith)
cache_line_size_power arch_arm64 = (6, omega arith, omega arith)
cache_line_size_power arch_arm32 = (5, omega arith, omega arith)
cache_line_size_power arch_generic = (6, omega arith, omega arith)
