-- ===== src/Tests/Pipeline.antt =====
-- The theorems on the pipeline controller, at a concrete crate, controller and readout.
use p42018_vmedaq.Common.{◌+◌, ◌*◌, ◌≡◌, refl, false, List, [], ◌∷◌, arith}
use p42018_vmedaq.Daq.{Daq}
use p42018_vmedaq.Bbrl.Camac.{Camac}
use p42018_vmedaq.Ccnet.{Ccnet, Controller, cnaf, ccnet_recseg}
use p42018_vmedaq.Ccnet.Maker.{Statement, begin, words, long, finish, control, write, ccnetstartup}
use p42018_vmedaq.Ccnet.Made.{AllFit, all_requests}
use p42018_vmedaq.Ccnet.Batch.{
  at_event, read_out, direct_all, dma_replies, AllReplies, recseg-direct,
}
use p42018_vmedaq.Ccnet.Wires.{HoldsCommands, wires, SameAddresses, ccnetstartup-wires}
use p42018_vmedaq.Tests.Data.{crate, nearly_full}

-- The crate, with the addresses of CC/NET.
abbrev pipeline_crate : Camac
pipeline_crate = record crate { cnafgen = λ c n a f. cnaf n a f }

-- A controller that gives the same answer to each command.
abbrev sevens : Controller
sevens = record { replies = λ cs c old x. 7 }

abbrev readout : List Statement
readout =
    begin 5 ∷ words 2 0 3 0 0 ∷ long 0 4 0 2 ∷ finish ∷ control 0 5 0 9 ∷ write 0 6 0 16 3 ∷ []

abbrev no_calls : Daq
no_calls = record nearly_full { calls = [] }

abbrev idle : Ccnet
idle = record {
  daq = no_calls;
  cmdbuf = λ x. x;
  clrbuf = λ x. x;
  rplybuf = λ x. x;
  segcmd = λ x. x;
  segcmdlen = 0;
  overrun = false;
  calls = [];
}

readout-AllFit : AllFit readout
readout-AllFit = (omega arith, (omega arith, (tt, (tt, (tt, (omega arith, tt))))))

replies-AllReplies :
    AllReplies pipeline_crate
      (dma_replies sevens (at_event 1024 readout idle idle))
      readout
      idle.daq
      2
replies-AllReplies = (tt, ((refl, (refl, tt)), ((refl, tt), (tt, (tt, (tt, tt))))))

recseg-direct_example : ccnet_recseg sevens (at_event 1024 readout idle idle) ≡ (
  2 + all_requests readout * 2,
  read_out pipeline_crate sevens readout (at_event 1024 readout idle idle),
)
recseg-direct_example =
    recseg-direct pipeline_crate sevens 1024 readout idle idle (omega arith) readout-AllFit
      replies-AllReplies

pipeline_crate-SameAddresses : SameAddresses pipeline_crate
pipeline_crate-SameAddresses = λ c n a f. refl

ccnetstartup-wires_example :
    ((ccnetstartup 1024 readout idle).1.overrun ≡ false)
    × HoldsCommands
        (ccnetstartup 1024 readout idle).1.cmdbuf
        1024
        (all_requests readout)
        (wires (direct_all pipeline_crate readout no_calls).1.calls)
ccnetstartup-wires_example =
    ccnetstartup-wires pipeline_crate 1024 readout idle no_calls pipeline_crate-SameAddresses
      (omega arith) (omega arith) readout-AllFit refl
