-- ===== src/SegmentId/Detectors.antt =====
-- segidlist.h: the codes of detectors.
use p42018_vmedaq.Common.{ℕ}

-- Detector, 0 to 63.
pub data Detector : Type 0 where
  scaler : Detector
  iscaler : Detector
  b2scaler : Detector
  ts : Detector
  dtmon : Detector
  ppacq : Detector
  ppact : Detector
  plaq : Detector
  plat : Detector
  ice : Detector
  ict : Detector
  ssde : Detector
  ssdt : Detector
  isgea : Detector
  isget : Detector
  coin : Detector
  naie : Detector
  pileup : Detector
  stoppla : Detector
  f7plat : Detector
  plaq2 : Detector
  nait : Detector
  mwdc : Detector
  labra : Detector
  labrt : Detector
  dalia : Detector
  dalit : Detector
  betaa : Detector
  betat : Detector
  hia : Detector
  clovera : Detector
  clovert : Detector
  vetoa : Detector
  vetot : Detector
  techno : Detector
  shbld : Detector
  shcrdc : Detector
  shcrdca : Detector
  shcrdcc : Detector
  shcrdct1 : Detector
  shcrdct2 : Detector
  shcrdca2 : Detector
  enf2tdc1 : Detector
  enf2madc1 : Detector
  enf2qdc1 : Detector
  enf2v1190 : Detector
  anode1 : Detector
  anode2 : Detector
  cathode1 : Detector
  cathode2 : Detector
  bdc1 : Detector
  bdc2 : Detector

unfoldable pub detector_code : Detector → ℕ
detector_code scaler = 63
detector_code iscaler = 62
detector_code b2scaler = 61
detector_code ts = 60
detector_code dtmon = 59
detector_code ppacq = 0
detector_code ppact = 1
detector_code plaq = 2
detector_code plat = 3
detector_code ice = 4
detector_code ict = 5
detector_code ssde = 6
detector_code ssdt = 7
detector_code isgea = 8
detector_code isget = 9
detector_code coin = 10
detector_code naie = 11
detector_code pileup = 12
detector_code stoppla = 13
detector_code f7plat = 14
detector_code plaq2 = 15
detector_code nait = 16
detector_code mwdc = 17
detector_code labra = 18
detector_code labrt = 19
detector_code dalia = 21
detector_code dalit = 22
detector_code betaa = 23
detector_code betat = 24
detector_code hia = 25
detector_code clovera = 26
detector_code clovert = 27
detector_code vetoa = 28
detector_code vetot = 29
detector_code techno = 30
detector_code shbld = 31
detector_code shcrdc = 32
detector_code shcrdca = 33
detector_code shcrdcc = 34
detector_code shcrdct1 = 35
detector_code shcrdct2 = 36
detector_code shcrdca2 = 37
detector_code enf2tdc1 = 40
detector_code enf2madc1 = 41
detector_code enf2qdc1 = 42
detector_code enf2v1190 = 43
detector_code anode1 = 44
detector_code anode2 = 45
detector_code cathode1 = 46
detector_code cathode2 = 47
detector_code bdc1 = 60
detector_code bdc2 = 61
