-- ===== src/SegmentId/Places.antt =====
-- segidlist.h: the codes of experiments, focal planes and scalers.
use p42018_vmedaq.Common.{ℕ}

-- Device or ExpGroup, 0 to 63.
pub data Experiment : Type 0 where
  bigrips : Experiment
  zero_degree : Experiment
  samurai : Experiment
  rcnpen : Experiment
  rcnpenn : Experiment
  nsbl01 : Experiment
  sharaq : Experiment
  dali : Experiment
  gammagr : Experiment
  betagr : Experiment
  radiigr : Experiment
  samuraigr : Experiment
  usergr : Experiment
  daq : Experiment

unfoldable pub experiment_code : Experiment → ℕ
experiment_code bigrips = 0
experiment_code zero_degree = 1
experiment_code samurai = 2
experiment_code rcnpen = 5
experiment_code rcnpenn = 6
experiment_code nsbl01 = 7
experiment_code sharaq = 11
experiment_code dali = 20
experiment_code gammagr = 21
experiment_code betagr = 22
experiment_code radiigr = 23
experiment_code samuraigr = 24
experiment_code usergr = 57
experiment_code daq = 58

-- Focal plane, 0 to 63.
pub data FocalPlane : Type 0 where
  f1 : FocalPlane
  f2 : FocalPlane
  f3 : FocalPlane
  f4 : FocalPlane
  f5 : FocalPlane
  f6 : FocalPlane
  f7 : FocalPlane
  f8 : FocalPlane
  f9 : FocalPlane
  f10 : FocalPlane
  f11 : FocalPlane
  f12 : FocalPlane
  gacko : FocalPlane
  lsc : FocalPlane
  fdaq : FocalPlane
  b3f : FocalPlane
  h7 : FocalPlane
  h8 : FocalPlane
  h9 : FocalPlane
  h10 : FocalPlane
  s0 : FocalPlane
  s1 : FocalPlane
  s2 : FocalPlane
  shb3f : FocalPlane

unfoldable pub focal_code : FocalPlane → ℕ
focal_code f1 = 1
focal_code f2 = 2
focal_code f3 = 3
focal_code f4 = 4
focal_code f5 = 5
focal_code f6 = 6
focal_code f7 = 7
focal_code f8 = 8
focal_code f9 = 9
focal_code f10 = 10
focal_code f11 = 11
focal_code f12 = 12
focal_code gacko = 19
focal_code lsc = 20
focal_code fdaq = 58
focal_code b3f = 63
focal_code h7 = 7
focal_code h8 = 8
focal_code h9 = 9
focal_code h10 = 10
focal_code s0 = 20
focal_code s1 = 21
focal_code s2 = 22
focal_code shb3f = 62

-- ScalerID, 0 to 65535.
pub data ScalerId : Type 0 where
  dtmonscaler : ScalerId
  ccnet01scaler : ScalerId
  ccnet02scaler : ScalerId
  ccnet03scaler : ScalerId
  ccnet04scaler : ScalerId
  ccnet05scaler : ScalerId
  ccnet06scaler : ScalerId
  ccnet07scaler : ScalerId
  f7daqscaler : ScalerId
  ssmscaler : ScalerId
  f11daqscaler : ScalerId
  f11gescaler : ScalerId
  f3daqscaler : ScalerId
  ggdaq01scaler : ScalerId
  shssmscaler : ScalerId

unfoldable pub scaler_code : ScalerId → ℕ
scaler_code dtmonscaler = 1
scaler_code ccnet01scaler = 21
scaler_code ccnet02scaler = 22
scaler_code ccnet03scaler = 23
scaler_code ccnet04scaler = 24
scaler_code ccnet05scaler = 25
scaler_code ccnet06scaler = 26
scaler_code ccnet07scaler = 27
scaler_code f7daqscaler = 31
scaler_code ssmscaler = 33
scaler_code f11daqscaler = 34
scaler_code f11gescaler = 35
scaler_code f3daqscaler = 36
scaler_code ggdaq01scaler = 41
scaler_code shssmscaler = 100
