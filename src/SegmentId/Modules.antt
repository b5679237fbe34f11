-- ===== src/SegmentId/Modules.antt =====
-- segidlist.h: the codes of modules.
use p42018_vmedaq.Common.{ℕ}

-- Module, 0 to 255.
pub data ModuleKind : Type 0 where
  c16 : ModuleKind
  c24 : ModuleKind
  ad413ac : ModuleKind
  ad413acz : ModuleKind
  ad413am : ModuleKind
  ad413a : ModuleKind
  ad413amz : ModuleKind
  l3377 : ModuleKind
  l3377cw : ModuleKind
  l3377cs : ModuleKind
  p7166 : ModuleKind
  p716x : ModuleKind
  p716xz : ModuleKind
  ctm405 : ModuleKind
  l3377mw : ModuleKind
  l3377ms : ModuleKind
  l4300bc : ModuleKind
  l4300bcz : ModuleKind
  l4300bm : ModuleKind
  l4300bmz : ModuleKind
  v775 : ModuleKind
  v785 : ModuleKind
  v792 : ModuleKind
  v550 : ModuleKind
  v767 : ModuleKind
  v1190 : ModuleKind
  v1190a : ModuleKind
  v1190b : ModuleKind
  v1290 : ModuleKind
  v1190c : ModuleKind
  dsp : ModuleKind
  a3100 : ModuleKind
  madc32 : ModuleKind
  lupoio : ModuleKind
  lupots : ModuleKind
  lupomts : ModuleKind
  tmb2 : ModuleKind
  mdaq : ModuleKind
  undefine8 : ModuleKind
  undefine15 : ModuleKind
  undefine18 : ModuleKind
  undefine19 : ModuleKind
  undefine20 : ModuleKind
  undefine27 : ModuleKind
  undefine28 : ModuleKind
  undefine30 : ModuleKind
  undefine33 : ModuleKind
  undefine34 : ModuleKind
  undefine35 : ModuleKind
  undefine36 : ModuleKind

unfoldable pub module_code : ModuleKind → ℕ
module_code c16 = 0
module_code c24 = 1
module_code ad413ac = 2
module_code ad413acz = 3
module_code ad413am = 4
module_code ad413a = 5
module_code ad413amz = 5
module_code l3377 = 6
module_code l3377cw = 6
module_code l3377cs = 7
module_code p7166 = 9
module_code p716x = 9
module_code p716xz = 10
module_code ctm405 = 11
module_code l3377mw = 16
module_code l3377ms = 17
module_code l4300bc = 11
module_code l4300bcz = 12
module_code l4300bm = 13
module_code l4300bmz = 14
module_code v775 = 21
module_code v785 = 21
module_code v792 = 21
module_code v550 = 22
module_code v767 = 23
module_code v1190 = 24
module_code v1190a = 24
module_code v1190b = 24
module_code v1290 = 25
module_code v1190c = 26
module_code dsp = 29
module_code a3100 = 31
module_code madc32 = 32
module_code lupoio = 41
module_code lupots = 42
module_code lupomts = 43
module_code tmb2 = 50
module_code mdaq = 58
module_code undefine8 = 8
module_code undefine15 = 15
module_code undefine18 = 18
module_code undefine19 = 19
module_code undefine20 = 20
module_code undefine27 = 27
module_code undefine28 = 28
module_code undefine30 = 30
module_code undefine33 = 33
module_code undefine34 = 34
module_code undefine35 = 35
module_code undefine36 = 36
