-- ===== src/Reconfig.antt =====
-- helper/virtualmachine/virtualmachinereconfig: changing the configuration of a virtual machine.
-- The children follow the stages: the parameters, the devices of the machine, the numbers of new
-- devices, the disks, the network cards, the rest of the specification, and their composition.
pub mod Parameter
pub mod Device
pub mod Error
pub mod Units
pub mod Disks
pub mod Nics
pub mod Spec
pub mod Run
