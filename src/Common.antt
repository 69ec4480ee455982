-- ===== src/Common.antt =====
-- remus/common.
pub mod StatusTypes
pub mod ServiceTypes
pub mod MeshIoType
pub mod PollingMonitor
pub mod ConversionHelper
pub mod ExecuteProcess
